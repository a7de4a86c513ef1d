-- ===== src/Json/TextFloat.antt =====
-- Numbers that are kept as their texts, for runs of the parser and the serializer.
use mx.Common.{Text, text_eq, some, refl}
use mx.Common.Int.{pos}
use mx.Common.Decimal.{i64_to_string, is_plain}
use mx.Json.Number.{Float}

-- A number is its text, and the finite ones are the plain texts.
abbrev pub text_float : Float
text_float = record {
  F = Text;
  to_i64 = λ n. pos 0;
  of_i64 = i64_to_string;
  eq = text_eq;
  is_finite = is_plain;
  to_string = λ n. n;
  parse = λ s. some s;
  to_string_plain = λ n h. h;
  parse-to_string = λ n h. refl;
  parse-i64 = λ i. refl;
}
