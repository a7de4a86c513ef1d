-- ===== src/Json/Write.antt =====
-- `Json::serialize` and `write_to` (src/json.rs). The source appends to a buffer: a function here
-- returns what the source appends.
use mx.Common.{
  ℕ, ◌+◌, ◌-◌, ◌/◌, ◌%◌, true, false, ◌&&◌, Text, codes, [], ◌∷◌, ◌++◌, ltb, ◌==◌, if◌then◌else◌,
}
use mx.Common.Decimal.{i64_to_string}
use mx.Json.{Json, null, bool, number, str, array, object, Items, nil, cons, Fields, end, field}
use mx.Json.Number.{Float}

-- One digit of `{:04x}`.
unfoldable pub hex_digit : ℕ → ℕ
hex_digit d = if ltb d 10 then d + b'0' else d - 10 + b'a'

-- `\\u{:04x}` of a character below 0x20: the first two digits are zeros.
unfoldable pub escape_control : ℕ → Text
escape_control c = b'\\' ∷ b'u' ∷ b'0' ∷ b'0' ∷ hex_digit (c / 16) ∷ hex_digit (c % 16) ∷ []

-- The `match ch` inside a string.
unfoldable pub write_char : ℕ → Text
write_char c =
    if c == b'"'
    then b'\\' ∷ b'"' ∷ []
    else if c == b'\\'
    then b'\\' ∷ b'\\' ∷ []
    else if c == b'\n'
    then b'\\' ∷ b'n' ∷ []
    else if c == b'\t'
    then b'\\' ∷ b't' ∷ []
    else if c == b'\r'
    then b'\\' ∷ b'r' ∷ []
    else if ltb c 0x20
    then escape_control c
    else c ∷ []

unfoldable pub write_chars : Text → Text
write_chars [] = []
write_chars (c ∷ cs) = write_char c ++ write_chars cs

unfoldable pub write_string : Text → Text
write_string s = b'"' ∷ write_chars s ++ b'"' ∷ []

module _ (fl : Float) where
  open fl use {F, to_i64, of_i64, eq, is_finite, to_string}

  -- `Json::Number(n)`: an integer is printed as an `i64`.
  unfoldable pub write_number : F → Text
  write_number n =
      if eq n (of_i64 (to_i64 n)) && is_finite n then i64_to_string (to_i64 n) else to_string n

  unfoldable mutual
    pub write : Json F → Text
    write null = codes "null"
    write (bool true) = codes "true"
    write (bool false) = codes "false"
    write (number n) = write_number n
    write (str s) = write_string s
    write (array items) = b'[' ∷ write_items items ++ b']' ∷ []
    write (object fields) = b'{' ∷ write_fields fields ++ b'}' ∷ []

    -- The first item, and those behind a comma.
    pub write_items : Items F → Text
    write_items nil = []
    write_items (cons v vs) = write v ++ write_more_items vs

    pub write_more_items : Items F → Text
    write_more_items nil = []
    write_more_items (cons v vs) = b',' ∷ write v ++ write_more_items vs

    pub write_fields : Fields F → Text
    write_fields end = []
    write_fields (field k v fs) = write_string k ++ b':' ∷ write v ++ write_more_fields fs

    pub write_more_fields : Fields F → Text
    write_more_fields end = []
    write_more_fields (field k v fs) =
        b',' ∷ write_string k ++ b':' ∷ write v ++ write_more_fields fs

  -- `serialize`
  unfoldable pub serialize : Json F → Text
  serialize v = write v
