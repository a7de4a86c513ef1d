-- ===== src/Json/Levels.antt =====
-- One level of the parser on what the serializer writes (src/json.rs): the steps of the round trip.
use mx.Common.{
  ℕ, suc, ◌≡◌, refl, ap, ◌∙◌, Bool, true, false, Text, [], ◌∷◌, ◌++◌, append_assoc, arith, ok,
  &&_elim,
}
use mx.Json.{Json, null, bool, number, str, array, object, Items, nil, cons, Fields, end, field}
use mx.Json.Write.{
  write_string, write_number, write, write_items, write_more_items, write_fields, write_more_fields,
}
use mx.Json.Escapes.{reread_chars}
use mx.Json.Lexemes.{
  reread_number, parse_string-write_string, parse_number-write_number, write_number-parses,
  value_at-plain, starts_value-plain, starts_value, skip_ws-starts_value, ends_number,
}
use mx.Json.Read.{expect, skip_ws, is_whitespace, parse_bool, parse_null, strip}
use mx.Json.Parse.{
  parse_value, parse_items, parse_entries, value_at, parse_array, parse_object, after_item,
  after_entry, array_body, object_body, Read,
}
use mx.Json.Number.{Float}
use mx.Json.Reread.{
  finite, finite_items, reread_value, reread_items, reread_fields, is_cons, is_field,
}

module _ (fl : Float) (total : ℕ) where
  open fl use {F, is_finite}

  pub starts_value-write :
      (v : Json F) (rest : Text) → finite fl v ≡ true → starts_value (write fl v ++ rest) ≡ true
  unfolding write finite write_string is_whitespace
  starts_value-write null rest h = refl
  starts_value-write (bool true) rest h = refl
  starts_value-write (bool false) rest h = refl
  starts_value-write (number n) rest h =
      starts_value-plain (write_number fl n) rest (write_number-parses fl n h).0
  starts_value-write (str s) rest h = refl
  starts_value-write (array vs) rest h = refl
  starts_value-write (object fs) rest h = refl

  -- An array's item, with the items that follow it.
  pub after_item-write :
      (f : ℕ) (v : Json F) (vs : Items F) (rest : Text)
      → (is_cons vs ≡ true
          → parse_items fl total f (write_items fl vs ++ b']' ∷ rest)
            ≡ ok (reread_items fl vs, rest))
      → after_item fl total
          (parse_items fl total f)
          v
          (skip_ws (write_more_items fl vs ++ b']' ∷ rest))
        ≡ ok (cons v (reread_items fl vs), rest)
  unfolding after_item skip_ws is_whitespace write reread_value
  after_item-write f v nil rest ih = refl
  after_item-write f v (cons w ws) rest ih = rw (ih refl)

  pub after_entry-write :
      (f : ℕ) (k : Text) (v : Json F) (fs : Fields F) (rest : Text)
      → (is_field fs ≡ true
          → parse_entries fl total f (write_fields fl fs ++ b'}' ∷ rest)
            ≡ ok (reread_fields fl fs, rest))
      → after_entry fl total
          (parse_entries fl total f)
          k
          v
          (skip_ws (write_more_fields fl fs ++ b'}' ∷ rest))
        ≡ ok (field k v (reread_fields fl fs), rest)
  unfolding after_entry skip_ws is_whitespace write reread_value
  after_entry-write f k v end rest ih = refl
  after_entry-write f k v (field j w ws) rest ih = rw (ih refl)

  -- A container that is not empty, on a text at which its first element starts.
  array_body-go :
      (go : Read fl total (Items F)) (t : Text) {vs : Items F} {rest : Text}
      → starts_value t ≡ true
      → go t ≡ ok (vs, rest)
      → array_body fl total go (skip_ws t) ≡ ok (array vs, rest)
  unfolding array_body
  array_body-go go [] h e = cc
  array_body-go go (c ∷ cs) h e = rw (skip_ws-starts_value (c ∷ cs) h) (ground arith)

  object_body-go :
      (go : Read fl total (Fields F)) (t : Text) {fs : Fields F} {rest : Text}
      → starts_value t ≡ true
      → go t ≡ ok (fs, rest)
      → object_body fl total go (skip_ws t) ≡ ok (object fs, rest)
  unfolding object_body
  object_body-go go [] h e = cc
  object_body-go go (c ∷ cs) h e = rw (skip_ws-starts_value (c ∷ cs) h) (ground arith)

  pub parse_value-bracket :
      (f : ℕ) (t : Text)
      → parse_value fl total (suc f) (b'[' ∷ t)
        ≡ array_body fl total (parse_items fl total f) (skip_ws t)
  unfolding parse_value skip_ws is_whitespace value_at parse_array expect
  parse_value-bracket f t = refl

  pub parse_value-brace :
      (f : ℕ) (t : Text)
      → parse_value fl total (suc f) (b'{' ∷ t)
        ≡ object_body fl total (parse_entries fl total f) (skip_ws t)
  unfolding parse_value skip_ws is_whitespace value_at parse_object expect
  parse_value-brace f t = refl

  pub starts_value-write_items :
      (vs : Items F) (rest : Text)
      → finite_items fl vs ≡ true
      → is_cons vs ≡ true
      → starts_value (write_items fl vs ++ rest) ≡ true
  unfolding write finite
  starts_value-write_items nil rest h n = cc
  starts_value-write_items (cons v vs) rest h n =
      ap starts_value (append_assoc (write fl v) (write_more_items fl vs) rest)
      ∙ starts_value-write v (write_more_items fl vs ++ rest)
          (&&_elim (finite fl v) (finite_items fl vs) h).0

  starts_value-write_fields :
      (fs : Fields F) (rest : Text)
      → is_field fs ≡ true
      → starts_value (write_fields fl fs ++ rest) ≡ true
  unfolding write write_string is_whitespace
  starts_value-write_fields end rest n = cc
  starts_value-write_fields (field k v fs) rest n = refl

  pub write-array :
      (vs : Items F) (rest : Text)
      → write fl (array vs) ++ rest ≡ b'[' ∷ (write_items fl vs ++ b']' ∷ rest)
  unfolding write
  write-array vs rest = ap (λ t. b'[' ∷ t) (append_assoc (write_items fl vs) (b']' ∷ []) rest)

  pub write-object :
      (fs : Fields F) (rest : Text)
      → write fl (object fs) ++ rest ≡ b'{' ∷ (write_fields fl fs ++ b'}' ∷ rest)
  unfolding write
  write-object fs rest = ap (λ t. b'{' ∷ t) (append_assoc (write_fields fl fs) (b'}' ∷ []) rest)

  pub array_body-write :
      (f : ℕ) (vs : Items F) (rest : Text)
      → finite_items fl vs ≡ true
      → (is_cons vs ≡ true
          → parse_items fl total f (write_items fl vs ++ b']' ∷ rest)
            ≡ ok (reread_items fl vs, rest))
      → array_body fl total (parse_items fl total f) (skip_ws (write_items fl vs ++ b']' ∷ rest))
        ≡ ok (array (reread_items fl vs), rest)
  array_body-write f nil rest h ih =
      unfold array_body skip_ws is_whitespace write reread_value in refl
  array_body-write f (cons v vs) rest h ih =
      array_body-go (parse_items fl total f) (write_items fl (cons v vs) ++ b']' ∷ rest)
        (starts_value-write_items (cons v vs) (b']' ∷ rest) h refl) (ih refl)

  pub object_body-write :
      (f : ℕ) (fs : Fields F) (rest : Text)
      → (is_field fs ≡ true
          → parse_entries fl total f (write_fields fl fs ++ b'}' ∷ rest)
            ≡ ok (reread_fields fl fs, rest))
      → object_body fl total
          (parse_entries fl total f)
          (skip_ws (write_fields fl fs ++ b'}' ∷ rest))
        ≡ ok (object (reread_fields fl fs), rest)
  object_body-write f end rest ih =
      unfold object_body skip_ws is_whitespace write reread_value in refl
  object_body-write f (field k v fs) rest ih =
      object_body-go (parse_entries fl total f) (write_fields fl (field k v fs) ++ b'}' ∷ rest)
        (starts_value-write_fields (field k v fs) (b'}' ∷ rest) refl) (ih refl)

  -- One level of the parser on each form of value.
  pub parse_value-null :
      (f : ℕ) (rest : Text) → parse_value fl total (suc f) (write fl null ++ rest) ≡ ok (null, rest)
  unfolding parse_value write skip_ws is_whitespace value_at parse_null strip
  parse_value-null f rest = refl

  pub parse_value-bool :
      (f : ℕ) (b : Bool) (rest : Text)
      → parse_value fl total (suc f) (write fl (bool b) ++ rest) ≡ ok (bool b, rest)
  unfolding parse_value write skip_ws is_whitespace value_at parse_bool strip
  parse_value-bool f true rest = refl
  parse_value-bool f false rest = refl

  pub parse_value-str :
      (f : ℕ) (s rest : Text)
      → parse_value fl total (suc f) (write fl (str s) ++ rest) ≡ ok (str (reread_chars s), rest)
  unfolding parse_value write write_string skip_ws is_whitespace value_at
  parse_value-str f s rest = rw (parse_string-write_string fl total s rest)

  pub parse_value-number :
      (f : ℕ) (n : F) (rest : Text)
      → is_finite n ≡ true
      → ends_number rest ≡ true
      → parse_value fl total (suc f) (write fl (number n) ++ rest)
        ≡ ok (number (reread_number fl n), rest)
  unfolding parse_value write
  parse_value-number f n rest h e =
      let plain = (write_number-parses fl n h).0 in
      rw
        (skip_ws-starts_value (write_number fl n ++ rest)
          (starts_value-plain (write_number fl n) rest plain))
        (value_at-plain fl total (parse_items fl total f) (parse_entries fl total f)
            (write_number fl n) rest plain
          ∙ parse_number-write_number fl total n rest h e)

  -- An item, and an entry, with what follows it.
  pub parse_items-cons :
      (f : ℕ) {v : Json F} (t t' : Text)
      → parse_value fl total f t ≡ ok (v, t')
      → parse_items fl total (suc f) t ≡ after_item fl total (parse_items fl total f) v (skip_ws t')
  unfolding parse_value
  parse_items-cons f t t' h = rw h

  pub parse_entries-field :
      (f : ℕ) (k : Text) {v : Json F} (t t' : Text)
      → parse_value fl total f t ≡ ok (v, t')
      → parse_entries fl total (suc f) (write_string k ++ b':' ∷ t)
        ≡ after_entry fl total (parse_entries fl total f) (reread_chars k) v (skip_ws t')
  unfolding parse_value write_string skip_ws is_whitespace expect
  parse_entries-field f k t t' h = rw (parse_string-write_string fl total k (b':' ∷ t), h)

  pub ends_number-more_items :
      (vs : Items F) (rest : Text) → ends_number (write_more_items fl vs ++ b']' ∷ rest) ≡ true
  unfolding write
  ends_number-more_items nil rest = refl
  ends_number-more_items (cons v vs) rest = refl

  pub ends_number-more_fields :
      (fs : Fields F) (rest : Text) → ends_number (write_more_fields fl fs ++ b'}' ∷ rest) ≡ true
  unfolding write
  ends_number-more_fields end rest = refl
  ends_number-more_fields (field k v fs) rest = refl
