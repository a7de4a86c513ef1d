-- ===== src/Json/Read.antt =====
-- `JsonParser` (src/json.rs). The parser's state is what is left of the input: the source's `pos` is
-- the input's length less the length of that.
use mx.Common.{
  ℕ, ◌+◌, ◌-◌, Bool, true, false, not, ◌&&◌, ◌||◌, Text, codes, Option, none, some, [], ◌∷◌, ◌++◌,
  ltb, leb, ◌==◌, if◌then◌else◌, length, Result, ok, err, ◌>>=◌,
}
use mx.Common.Decimal.{is_digit}
use mx.Json.{Json, null, bool, number}
use mx.Json.Number.{Float}

-- The error messages, by what they print; a `pos` is a position in the input.
pub data Error : Type 0 where
  expected : ℕ → ℕ → ℕ → Error
  expected_got_eof : ℕ → Error
  unexpected_char : ℕ → ℕ → Error
  unexpected_eof unterminated_escape unterminated_string : Error
  bad_number : Text → Error
  expected_bool expected_null : ℕ → Error
  expected_comma_or_bracket expected_comma_or_brace : ℕ → Error
  -- The model's own: the bound on the depth of calls was too small.
  out_of_fuel : Error

-- `char::is_whitespace`: the Unicode property White_Space.
unfoldable pub is_whitespace : ℕ → Bool
is_whitespace c =
    (leb 9 c && leb c 13)
    || c == 0x20
    || c == 0x85
    || c == 0xA0
    || c == 0x1680
    || (leb 0x2000 c && leb c 0x200A)
    || c == 0x2028
    || c == 0x2029
    || c == 0x202F
    || c == 0x205F
    || c == 0x3000

unfoldable pub skip_ws : Text → Text
skip_ws [] = []
skip_ws (c ∷ cs) = if is_whitespace c then skip_ws cs else c ∷ cs

-- The escapes that `parse_string` knows; any other is kept with its backslash.
unfoldable pub read_escape : ℕ → Text
read_escape c =
    if c == b'n'
    then b'\n' ∷ []
    else if c == b't'
    then b'\t' ∷ []
    else if c == b'\\' || c == b'"' || c == b'/'
    then c ∷ []
    else b'\\' ∷ c ∷ []

-- The loop of `parse_string`, behind the opening quote; `s` is the string read so far.
unfoldable mutual
  pub string_loop : Text → Text → Result Error (Text × Text)
  string_loop s [] = err unterminated_string
  string_loop s (c ∷ cs) = elim (c == b'"') [
    | true ↦ ok (s, cs)
    | false ↦ elim (c == b'\\') [ true ↦ escape_loop s cs | false ↦ string_loop (s ++ c ∷ []) cs ]
  ]

  pub escape_loop : Text → Text → Result Error (Text × Text)
  escape_loop s [] = err unterminated_escape
  escape_loop s (c ∷ cs) = string_loop (s ++ read_escape c) cs

-- The characters that the loop of `parse_number` takes. `k` is `self.pos - start` and `prev` the
-- character before.
abbrev pub is_number_char : ℕ → Bool
is_number_char c = is_digit c || c == b'.' || c == b'e' || c == b'E' || c == b'+' || c == b'-'

takes : ℕ → ℕ → ℕ → Bool
takes k prev c =
    is_number_char c
    && not ((c == b'+' || c == b'-') && ltb 1 k && not (prev == b'e' || prev == b'E'))

unfoldable pub number_loop : ℕ → ℕ → Text → Text × Text
unfolding takes
number_loop k prev [] = ([], [])
number_loop k prev (c ∷ cs) =
    let taken = number_loop (k + 1) c cs in
    if takes k prev c then (c ∷ taken.0, taken.1) else ([], c ∷ cs)

-- `start..pos`, and what is left.
unfoldable pub number_text : Text → Text × Text
unfolding number_loop
number_text [] = ([], [])
number_text (c ∷ cs) =
    let taken = number_loop 1 c cs in
    if c == b'-' then (c ∷ taken.0, taken.1) else number_loop 0 c (c ∷ cs)

-- `self.chars[self.pos..].starts_with(word)`: what is left behind the word.
unfoldable pub strip : Text → Text → Option Text
strip [] s = some s
strip (w ∷ ws) [] = none
strip (w ∷ ws) (c ∷ cs) = if c == w then strip ws cs else none

-- `total` is the length of the input.
module _ (fl : Float) (total : ℕ) where
  open fl use {F, parse}

  abbrev position : Text → ℕ
  position s = total - length s

  unfoldable pub expect_here : ℕ → Text → Result Error Text
  expect_here ch [] = err (expected_got_eof ch)
  expect_here ch (c ∷ cs) = if c == ch then ok cs else err (expected ch c (position cs))

  unfoldable pub expect : ℕ → Text → Result Error Text
  unfolding expect_here skip_ws
  expect ch s = expect_here ch (skip_ws s)

  unfoldable pub parse_string : Text → Result Error (Text × Text)
  unfolding expect string_loop
  parse_string s = do cs ← expect b'"' s; string_loop [] cs

  unfoldable pub parse_number : Text → Result Error (Json F × Text)
  parse_number s =
      let (num_str, rest) = number_text s in
      elim (parse num_str) [ none ↦ err (bad_number num_str) | some n ↦ ok (number n, rest) ]

  unfoldable pub parse_bool : Text → Result Error (Json F × Text)
  parse_bool s = elim (strip (codes "true") s) [
    | some rest ↦ ok (bool true, rest)
    | none ↦ elim (strip (codes "false") s) [
      | some rest ↦ ok (bool false, rest)
      | none ↦ err (expected_bool (position s))
    ]
  ]

  unfoldable pub parse_null : Text → Result Error (Json F × Text)
  parse_null s = elim (strip (codes "null") s) [
    | some rest ↦ ok (null, rest)
    | none ↦ err (expected_null (position s))
  ]
