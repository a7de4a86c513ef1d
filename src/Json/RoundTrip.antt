-- ===== src/Json/RoundTrip.antt =====
-- Parsing what was serialized (src/json.rs).
use mx.Common.{
  ℕ, zero, suc, ◌+◌, ◌*◌, ◌≤◌, ◌≡◌, refl, ap, ◌∙◌, true, Text, [], ◌∷◌, ◌++◌, append-nil,
  append_assoc, arith, length, length-append, ok, &&_elim,
}
use mx.Json.{Json, null, bool, number, str, array, object, Items, nil, cons, Fields, end, field}
use mx.Json.Write.{
  write_string, write, write_items, write_more_items, write_fields, write_more_fields, serialize,
}
use mx.Json.Escapes.{reread_chars}
use mx.Json.Lexemes.{ends_number, skip_ws-starts_value}
use mx.Json.Levels.{
  starts_value-write, after_item-write, after_entry-write, array_body-write, object_body-write,
  write-array, write-object, parse_value-bracket, parse_value-brace, parse_value-null,
  parse_value-bool, parse_value-str, parse_value-number, parse_items-cons, parse_entries-field,
  ends_number-more_items, ends_number-more_fields,
}
use mx.Json.Number.{Float}
use mx.Json.Parse.{parse, parse_value, parse_items, parse_entries, enough_fuel}
use mx.Json.Reread.{
  finite, finite_items, finite_fields, reread_value, reread_items, reread_fields, is_cons, is_field,
}

module _ (fl : Float) where
  open fl use {F}

  length-write_items :
      (v : Json F) (vs : Items F)
      → length (write_items fl (cons v vs)) ≡ length (write fl v) + length (write_more_items fl vs)
  unfolding write
  length-write_items v vs = length-append (write fl v) (write_more_items fl vs)

  length-more_items :
      (vs : Items F)
      → is_cons vs ≡ true
      → length (write_more_items fl vs) ≡ suc (length (write_items fl vs))
  unfolding write
  length-more_items nil h = cc
  length-more_items (cons v vs) h = refl

  length-write_fields :
      (k : Text) (v : Json F) (fs : Fields F)
      → length (write_fields fl (field k v fs))
        ≡ length (write_string k) + 1 + length (write fl v) + length (write_more_fields fl fs)
  unfolding write
  length-write_fields k v fs = omega (
    arith,
    length-append (write_string k ++ b':' ∷ write fl v) (write_more_fields fl fs),
    length-append (write_string k) (b':' ∷ write fl v),
  )

  length-more_fields :
      (fs : Fields F)
      → is_field fs ≡ true
      → length (write_more_fields fl fs) ≡ suc (length (write_fields fl fs))
  unfolding write
  length-more_fields end h = cc
  length-more_fields (field k v fs) h = refl

  length-write_array :
      (vs : Items F) → length (write fl (array vs)) ≡ length (write_items fl vs) + 2
  unfolding write
  length-write_array vs = omega (arith, length-append (write_items fl vs) (b']' ∷ []))

  length-write_object :
      (fs : Fields F) → length (write fl (object fs)) ≡ length (write_fields fl fs) + 2
  unfolding write
  length-write_object fs = omega (arith, length-append (write_fields fl fs) (b'}' ∷ []))

  write_items-rest :
      (v : Json F) (vs : Items F) (rest : Text)
      → write_items fl (cons v vs) ++ rest ≡ write fl v ++ (write_more_items fl vs ++ rest)
  unfolding write
  write_items-rest v vs rest = append_assoc (write fl v) (write_more_items fl vs) rest

  write_fields-rest :
      (k : Text) (v : Json F) (fs : Fields F) (rest : Text)
      → write_fields fl (field k v fs) ++ rest
        ≡ write_string k ++ b':' ∷ (write fl v ++ (write_more_fields fl fs ++ rest))
  unfolding write
  write_fields-rest k v fs rest = simp append_assoc

module _ (fl : Float) (total : ℕ) where
  open fl use {F}

  mutual
    unfolding reread_value finite

    pub parse_value-write :
        (f : ℕ) (v : Json F) (rest : Text)
        → 2 * length (write fl v) + 1 ≤ f
        → finite fl v ≡ true
        → ends_number rest ≡ true
        → parse_value fl total f (write fl v ++ rest) ≡ ok (reread_value fl v, rest)
    parse_value-write zero v rest l h e = absurd (omega arith)
    parse_value-write (suc f) null rest l h e = parse_value-null fl total f rest
    parse_value-write (suc f) (bool b) rest l h e = parse_value-bool fl total f b rest
    parse_value-write (suc f) (number n) rest l h e = parse_value-number fl total f n rest h e
    parse_value-write (suc f) (str s) rest l h e = parse_value-str fl total f s rest
    parse_value-write (suc f) (array vs) rest l h e =
        ap (parse_value fl total (suc f)) (write-array fl total vs rest)
        ∙ parse_value-bracket fl total f (write_items fl vs ++ b']' ∷ rest)
        ∙ array_body-write fl total f vs rest h
            (parse_items-write f vs rest (omega (arith, length-write_array fl vs)) h)
    parse_value-write (suc f) (object fs) rest l h e =
        ap (parse_value fl total (suc f)) (write-object fl total fs rest)
        ∙ parse_value-brace fl total f (write_fields fl fs ++ b'}' ∷ rest)
        ∙ object_body-write fl total f fs rest
            (parse_entries-write f fs rest (omega (arith, length-write_object fl fs)) h)

    pub parse_items-write :
        (f : ℕ) (vs : Items F) (rest : Text)
        → 2 * length (write_items fl vs) + 2 ≤ f
        → finite_items fl vs ≡ true
        → is_cons vs ≡ true
        → parse_items fl total f (write_items fl vs ++ b']' ∷ rest) ≡ ok (reread_items fl vs, rest)
    parse_items-write zero vs rest l h n = absurd (omega arith)
    parse_items-write (suc f) nil rest l h n = cc
    parse_items-write (suc f) (cons v vs) rest l h n =
        let both = &&_elim (finite fl v) (finite_items fl vs) h in
        let follow : Text = write_more_items fl vs ++ b']' ∷ rest in
        ap (parse_items fl total (suc f)) (write_items-rest fl v vs (b']' ∷ rest))
        ∙ parse_items-cons fl total f (write fl v ++ follow) follow (
            parse_value-write f v follow (omega (arith, length-write_items fl v vs)) both.0
              (ends_number-more_items fl total vs rest))
        ∙ after_item-write fl total f (reread_value fl v) vs rest (λ c.
          parse_items-write f vs rest
            (omega (arith, length-write_items fl v vs, length-more_items fl vs c)) both.1 c)

    pub parse_entries-write :
        (f : ℕ) (fs : Fields F) (rest : Text)
        → 2 * length (write_fields fl fs) + 2 ≤ f
        → finite_fields fl fs ≡ true
        → is_field fs ≡ true
        → parse_entries fl total f (write_fields fl fs ++ b'}' ∷ rest)
          ≡ ok (reread_fields fl fs, rest)
    parse_entries-write zero fs rest l h n = absurd (omega arith)
    parse_entries-write (suc f) end rest l h n = cc
    parse_entries-write (suc f) (field k v fs) rest l h n =
        let both = &&_elim (finite fl v) (finite_fields fl fs) h in
        let follow : Text = write_more_fields fl fs ++ b'}' ∷ rest in
        ap (parse_entries fl total (suc f)) (write_fields-rest fl k v fs (b'}' ∷ rest))
        ∙ parse_entries-field fl total f k (write fl v ++ follow) follow (
            parse_value-write f v follow (omega (arith, length-write_fields fl k v fs)) both.0
              (ends_number-more_fields fl total fs rest))
        ∙ after_entry-write fl total f (reread_chars k) (reread_value fl v) fs rest (λ c.
          parse_entries-write f fs rest
            (omega (arith, length-write_fields fl k v fs, length-more_fields fl fs c)) both.1 c)

-- Json::parse reads back what Json::serialize wrote of a value with finite numbers, except that the
-- control characters which have no escape in the parser come back as the text of their escapes, and
-- an integral number as the one its `i64` stands for.
pub parse-serialize :
    (fl : Float) (v : Json fl.F)
    → finite fl v ≡ true
    → parse fl (serialize fl v) ≡ ok (reread_value fl v)
unfolding parse serialize
parse-serialize fl v h =
    let read =
      parse_value-write fl (length (write fl v)) (enough_fuel (write fl v)) v [] (omega arith) h
        refl in
    let starts = starts_value-write fl 0 v [] h in
    rw (skip_ws-starts_value (write fl v) (rw append-nil at starts), rw append-nil at read)
