-- ===== src/Token/Described.antt =====
-- What the keywords are called in messages (src/token.rs).
use mx.Common.{
  Text, codes, text_eq, text_eq_iff, Bool-cases, inl, inr, ap, all, some_inj, sym, ◌∙◌, &&_elim,
  ◌≡◌, refl, Bool, true, false, Option-cases, none, some, List, [], ◌∷◌, ◌++◌, if◌then◌else◌,
}
use mx.Token.{TokenKind}
use mx.Token.Keywords.{pim_keywords, m2plus_keywords, find_arm, keyword_from_str, describe}

-- A word as `describe` writes a keyword.
abbrev pub quoted : Text → Text
quoted word = b'\'' ∷ word ++ codes "'"

module _ (F : Type 0) where
  abbrev is_described : Text × TokenKind F → Bool
  is_described arm = text_eq (describe arm.1) (quoted arm.0)

  pim_described : all is_described pim_keywords ≡ true
  unfolding describe text_eq
  pim_described = refl

  m2plus_described : all is_described m2plus_keywords ≡ true
  unfolding describe text_eq
  m2plus_described = refl

  find_arm-describe :
      (arms : List (Text × TokenKind F)) (s : Text) (kind : TokenKind F)
      → all is_described arms ≡ true
      → find_arm arms s ≡ some kind
      → describe kind ≡ quoted s
  unfolding find_arm
  find_arm-describe [] s kind good h = cc
  find_arm-describe ((word, found) ∷ arms) s kind good h =
      let both = &&_elim (is_described (word, found)) (all is_described arms) good in
      elim (Bool-cases (text_eq word s)) [
        | inl same ↦
            let found_kind = some_inj (rw same at h) in
            let written = (text_eq_iff (describe found) (quoted word)).0 both.0 in
            ap describe (sym found_kind) ∙ written ∙ ap quoted ((text_eq_iff word s).0 same)
        | inr other ↦ find_arm-describe arms s kind both.1 (rw other at h)
      ]

  find_extension-describe :
      (m2plus : Bool) (s : Text) (kind : TokenKind F)
      → (if m2plus then find_arm m2plus_keywords s else none) ≡ some kind
      → describe kind ≡ quoted s
  find_extension-describe true s kind h =
      find_arm-describe m2plus_keywords s kind m2plus_described h
  find_extension-describe false s kind h = cc

  -- A keyword is described by the text that was recognized as it, between quotes, with or without
  -- the extensions.
  pub keyword_from_str-describe :
      (s : Text) (m2plus : Bool) (kind : TokenKind F)
      → keyword_from_str s m2plus ≡ some kind
      → describe kind ≡ quoted s
  unfolding keyword_from_str
  keyword_from_str-describe s m2plus kind h =
      let pim = pim_keywords {F = F} in
      elim (Option-cases (find_arm pim s)) [
        | inr (found, e) ↦
            find_arm-describe pim s kind pim_described (e ∙ rw (keyword_from_str, e) at h)
        | inl e ↦ find_extension-describe m2plus s kind (rw (keyword_from_str, e) at h)
      ]
