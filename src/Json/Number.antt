-- ===== src/Json/Number.antt =====
-- What src/json.rs uses of `f64`: the casts to and from `i64`, `is_finite`, the comparison, and the
-- standard library's printing and parsing.
use mx.Common.{Bool, true, Text, Option, some, ◌≡◌}
use mx.Common.Int.{ℤ}
use mx.Common.Decimal.{i64_to_string, is_plain}

pub record Float : Type 1 where
  pub F : Type 0
  -- `n as i64` and `i as f64`
  pub to_i64 : F → ℤ
  pub of_i64 : ℤ → F
  -- `a == b` on `f64`
  pub eq : F → F → Bool
  pub is_finite : F → Bool
  -- `n.to_string()` and `s.parse::<f64>()`
  pub to_string : F → Text
  pub parse : Text → Option F
  -- `Display` writes a finite number with a sign, digits and at most one point: no exponent.
  pub to_string_plain : (n : F) → is_finite n ≡ true → is_plain (to_string n) ≡ true
  -- What `Display` writes of a finite number parses to that number.
  pub parse-to_string : (n : F) → is_finite n ≡ true → parse (to_string n) ≡ some n
  -- The decimal text of an integer parses to the nearest `f64`, as the cast rounds it.
  pub parse-i64 : (i : ℤ) → parse (i64_to_string i) ≡ some (of_i64 i)
