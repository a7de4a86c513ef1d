-- ===== src/Json/Lexemes.antt =====
-- The lexical parts of the parser on what the serializer writes: strings, numbers, blanks
-- (src/json.rs).
use mx.Common.{
  ok_inj, ◌↔◌, ℕ, ◌+◌, ◌≡◌, refl, ap, sym, ◌∙◌, Bool, true, false, ◌&&◌, ◌||◌, not, Text, [], ◌∷◌,
  ◌++◌, append_assoc, arith, ◌==◌, if◌then◌else◌, all, ok, some,
}
use mx.Common.Decimal.{is_digit, is_plain, is_plain-i64_to_string}
use mx.Json.{number}
use mx.Json.Write.{write_string, write_number}
use mx.Json.Escapes.{is_clean, reread_chars, string_loop-write_chars, reread-clean_iff}
use mx.Json.Read.{
  parse_string, expect, skip_ws, is_whitespace, is_number_char, number_loop, number_text,
  parse_number,
}
use mx.Json.Number.{Float}
use mx.Json.Parse.{Read, value_at}
use mx.Json.{Items, Fields}

-- A text whose first character starts a value: no blank, and no end of a container.
abbrev pub starts_value : Text → Bool
starts_value [] = false
starts_value (c ∷ cs) = not (is_whitespace c) && not (c == b']') && not (c == b'}')

pub starts_value-plain : (t rest : Text) → is_plain t ≡ true → starts_value (t ++ rest) ≡ true
unfolding is_whitespace
starts_value-plain [] rest h = cc
starts_value-plain (c ∷ cs) rest h = ground arith

pub skip_ws-starts_value : (s : Text) → starts_value s ≡ true → skip_ws s ≡ s
unfolding skip_ws
skip_ws-starts_value [] h = refl
skip_ws-starts_value (c ∷ cs) h = ground arith

-- A text at whose start a number ends.
abbrev pub ends_number : Text → Bool
ends_number [] = true
ends_number (c ∷ cs) = not (is_number_char c)

number_loop-ends :
    (k prev : ℕ) (rest : Text) → ends_number rest ≡ true → number_loop k prev rest ≡ ([], rest)
unfolding number_loop
number_loop-ends k prev [] h = refl
number_loop-ends k prev (c ∷ cs) h = ground arith

number_loop-plain :
    (k prev : ℕ) (cs rest : Text)
    → all (λ c. is_digit c || c == b'.') cs ≡ true
    → ends_number rest ≡ true
    → number_loop k prev (cs ++ rest) ≡ (cs, rest)
unfolding number_loop
number_loop-plain k prev [] rest h e = number_loop-ends k prev rest e
number_loop-plain k prev (c ∷ cs) rest h e = ground (arith, number_loop-plain (k + 1) c cs rest)

number_text-plain :
    (t rest : Text)
    → is_plain t ≡ true
    → ends_number rest ≡ true
    → number_text (t ++ rest) ≡ (t, rest)
unfolding number_text
number_text-plain [] rest h e = cc
number_text-plain (c ∷ cs) rest h e = ground (arith, number_loop-plain 1 c cs rest)

module _ (fl : Float) where
  open fl use {
    F, to_i64, of_i64, eq, is_finite, to_string, parse, to_string_plain, parse-to_string, parse-i64,
  }

  -- The number that is read where `n` was written: an integral one came back through `i64`.
  unfoldable pub reread_number : F → F
  reread_number n = if eq n (of_i64 (to_i64 n)) && is_finite n then of_i64 (to_i64 n) else n

  pub write_number-parses :
      (n : F)
      → is_finite n ≡ true
      → (is_plain (write_number fl n) ≡ true) × (parse (write_number fl n) ≡ some (reread_number n))
  unfolding write_number reread_number
  write_number-parses n h = ground (
    arith,
    is_plain-i64_to_string (to_i64 n),
    parse-i64 (to_i64 n),
    to_string_plain n,
    parse-to_string n,
  )

module _ (fl : Float) (total : ℕ) where
  open fl use {F, is_finite}

  pub parse_string-write_string :
      (cs rest : Text)
      → parse_string fl total (write_string cs ++ rest) ≡ ok (reread_chars cs, rest)
  unfolding parse_string expect skip_ws write_string is_whitespace
  parse_string-write_string cs rest = rw append_assoc (string_loop-write_chars [] cs rest)

  -- A string that was written is read back as it was exactly when all its characters are clean: no
  -- control characters but newlines and tabs.
  pub parse_string-clean :
      (cs rest : Text)
      → (parse_string fl total (write_string cs ++ rest) ≡ ok (cs, rest)) ↔ (all is_clean cs ≡ true)
  parse_string-clean cs rest = (
    λ h.
        (reread-clean_iff cs).1
          (ap (λ p. p.0) (ok_inj (sym (parse_string-write_string cs rest) ∙ h))),
    λ h. parse_string-write_string cs rest ∙ ap (λ t. ok (t, rest)) ((reread-clean_iff cs).0 h),
  )

  pub parse_number-write_number :
      (n : F) (rest : Text)
      → is_finite n ≡ true
      → ends_number rest ≡ true
      → parse_number fl total (write_number fl n ++ rest) ≡ ok (number (reread_number fl n), rest)
  unfolding parse_number
  parse_number-write_number n rest h e =
      let p = write_number-parses fl n h in
      ground (arith, number_text-plain (write_number fl n) rest p.0 e, p.1)

  pub value_at-plain :
      (items : Read fl total (Items F)) (entries : Read fl total (Fields F)) (t rest : Text)
      → is_plain t ≡ true
      → value_at fl total items entries (t ++ rest) ≡ parse_number fl total (t ++ rest)
  unfolding value_at
  value_at-plain items entries [] rest h = cc
  value_at-plain items entries (c ∷ cs) rest h = ground arith
