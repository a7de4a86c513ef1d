-- ===== src/Json/Access.antt =====
-- The builder helpers and the accessors of `Json` (src/json.rs).
use mx.Common.{Bool, Text, text_eq, List, [], ◌∷◌, Option, none, some, if◌then◌else◌}
use mx.Common.Int.{ℤ}
use mx.Json.{Json, bool, number, str, array, object, Items, nil, cons, Fields, end, field}
use mx.Json.Number.{Float}

module _ {F : Type 0} where
  abbrev fields_of : List (Text × Json F) → Fields F
  fields_of [] = end
  fields_of ((k, v) ∷ entries) = field k v (fields_of entries)

  unfoldable pub obj : List (Text × Json F) → Json F
  obj entries = object (fields_of entries)

  unfoldable pub str_val : Text → Json F
  str_val s = str s

  -- The first entry of the key.
  unfoldable pub get_field : Fields F → Text → Option (Json F)
  get_field end key = none
  get_field (field k v fs) key =
      let rest = get_field fs key in if text_eq k key then some v else rest

  unfoldable pub get : Json F → Text → Option (Json F)
  get (object fs) key = get_field fs key
  get _ key = none

  unfoldable pub as_str : Json F → Option Text
  as_str (str s) = some s
  as_str _ = none

  unfoldable pub as_bool : Json F → Option Bool
  as_bool (bool b) = some b
  as_bool _ = none

  unfoldable pub as_array : Json F → Option (Items F)
  as_array (array vs) = some vs
  as_array _ = none

  -- `as_str` and `as_bool` of an entry, with a default.
  unfoldable pub as_str_or : Json F → Text → Text → Text
  as_str_or v key default = elim (get v key) [
    | none ↦ default
    | some w ↦ elim (as_str w) [ none ↦ default | some s ↦ s ]
  ]

  unfoldable pub as_bool_or : Json F → Text → Bool → Bool
  as_bool_or v key default = elim (get v key) [
    | none ↦ default
    | some w ↦ elim (as_bool w) [ none ↦ default | some b ↦ b ]
  ]

  abbrev strings : Items F → List Text
  strings nil = []
  strings (cons v vs) = let rest = strings vs in elim (as_str v) [ none ↦ rest | some s ↦ s ∷ rest ]

  unfoldable pub as_string_array : Json F → Text → List Text
  as_string_array v key = elim (get v key) [
    | none ↦ []
    | some w ↦ elim (as_array w) [ none ↦ [] | some vs ↦ strings vs ]
  ]

module _ (fl : Float) where
  unfoldable pub int_val : ℤ → Json fl.F
  int_val n = number (fl.of_i64 n)

  unfoldable pub as_i64 : Json fl.F → Option ℤ
  as_i64 (number n) = some (fl.to_i64 n)
  as_i64 _ = none

  -- The integer under a key.
  unfoldable pub integer_at : Json fl.F → Text → Option ℤ
  integer_at v key = elim (get v key) [ none ↦ none | some w ↦ as_i64 w ]
