-- ===== src/Json/Parse.antt =====
-- `parse_value`, `parse_array`, `parse_object` and `Json::parse` (src/json.rs). The mutual recursion
-- takes fuel; the loops of the two containers are the recursive `parse_items` and `parse_entries`.
use mx.Common.{
  ℕ, zero, suc, ◌+◌, ◌-◌, ◌*◌, ◌||◌, Text, [], ◌∷◌, ◌==◌, if◌then◌else◌, length, Result, ok, err,
  ◌>>=◌,
}
use mx.Common.Decimal.{is_digit}
use mx.Json.{Json, str, array, object, Items, nil, cons, Fields, end, field}
use mx.Json.Number.{Float}
use mx.Json.Read.{
  Error, unexpected_char, unexpected_eof, expected_comma_or_bracket, expected_comma_or_brace,
  out_of_fuel, skip_ws, expect, parse_string, parse_number, parse_bool, parse_null,
}

module _ (fl : Float) (total : ℕ) where
  open fl use {F}

  abbrev pub Read : Type 0 → Type 0
  Read A = Text → Result Error (A × Text)

  -- The loop of `parse_array` behind an item: `go` reads the items that follow a comma.
  unfoldable pub after_item : Read (Items F) → Json F → Text → Result Error (Items F × Text)
  after_item go v [] = err (expected_comma_or_bracket (total - 0))
  after_item go v (c ∷ cs) =
      if c == b','
      then (do (vs, rest) ← go cs; ok (cons v vs, rest))
      else if c == b']'
      then ok (cons v nil, cs)
      else err (expected_comma_or_bracket (total - length (c ∷ cs)))

  unfoldable pub after_entry :
      Read (Fields F) → Text → Json F → Text → Result Error (Fields F × Text)
  after_entry go k v [] = err (expected_comma_or_brace (total - 0))
  after_entry go k v (c ∷ cs) =
      if c == b','
      then (do (fs, rest) ← go cs; ok (field k v fs, rest))
      else if c == b'}'
      then ok (field k v end, cs)
      else err (expected_comma_or_brace (total - length (c ∷ cs)))

  -- Behind the `[`, blanks skipped.
  unfoldable pub array_body : Read (Items F) → Text → Result Error (Json F × Text)
  array_body go [] = do (vs, rest) ← go []; ok (array vs, rest)
  array_body go (c ∷ cs) =
      if c == b']' then ok (array nil, cs) else (do (vs, rest) ← go (c ∷ cs); ok (array vs, rest))

  unfoldable pub object_body : Read (Fields F) → Text → Result Error (Json F × Text)
  object_body go [] = do (fs, rest) ← go []; ok (object fs, rest)
  object_body go (c ∷ cs) =
      if c == b'}' then ok (object end, cs) else (do (fs, rest) ← go (c ∷ cs); ok (object fs, rest))

  unfoldable pub parse_array : Read (Items F) → Text → Result Error (Json F × Text)
  unfolding array_body
  parse_array go s = do rest ← expect fl total b'[' s; array_body go (skip_ws rest)

  unfoldable pub parse_object : Read (Fields F) → Text → Result Error (Json F × Text)
  unfolding object_body
  parse_object go s = do rest ← expect fl total b'{' s; object_body go (skip_ws rest)

  -- The `match self.peek()` of `parse_value`.
  unfoldable pub value_at : Read (Items F) → Read (Fields F) → Text → Result Error (Json F × Text)
  value_at items entries [] = err unexpected_eof
  value_at items entries (c ∷ cs) =
      if c == b'"'
      then (do (s, rest) ← parse_string fl total (c ∷ cs); ok (str s, rest))
      else if c == b'{'
      then parse_object entries (c ∷ cs)
      else if c == b'['
      then parse_array items (c ∷ cs)
      else if c == b't' || c == b'f'
      then parse_bool fl total (c ∷ cs)
      else if c == b'n'
      then parse_null fl total (c ∷ cs)
      else if c == b'-' || is_digit c
      then parse_number fl total (c ∷ cs)
      else err (unexpected_char c (total - length (c ∷ cs)))

  unfoldable mutual
    pub parse_value : ℕ → Text → Result Error (Json F × Text)
    parse_value zero s = err out_of_fuel
    parse_value (suc f) s = value_at (parse_items f) (parse_entries f) (skip_ws s)

    pub parse_items : ℕ → Text → Result Error (Items F × Text)
    parse_items zero s = err out_of_fuel
    parse_items (suc f) s = do
      (v, rest) ← parse_value f s
      after_item (parse_items f) v (skip_ws rest)

    pub parse_entries : ℕ → Text → Result Error (Fields F × Text)
    parse_entries zero s = err out_of_fuel
    parse_entries (suc f) s = do
      (k, rest) ← parse_string fl total (skip_ws s)
      rest' ← expect fl total b':' (skip_ws rest)
      (v, rest'') ← parse_value f rest'
      after_entry (parse_entries f) k v (skip_ws rest'')

-- Each call of the recursion takes a character, or is followed by one that does.
abbrev pub enough_fuel : Text → ℕ
enough_fuel s = 2 * length s + 1

-- `Json::parse`: what follows the value is not looked at.
module _ (fl : Float) where
  open fl use {F}

  unfoldable pub parse : Text → Result Error (Json F)
  parse input = do
    (v, rest) ← parse_value fl (length input) (enough_fuel input) (skip_ws input)
    ok v
