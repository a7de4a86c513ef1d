-- ===== src/Common/Decimal.antt =====
-- `to_string` of an `i64`: the decimal digits, with a sign. An `i64` has at most 19 digits.
use Prim.Native.Nat.{ℕ, zero, suc, ◌+◌, ◌/◌, ◌%◌}
use mathlib.Core.Path.{◌≡◌, refl}
use mathlib.Core.Bool.{Bool, true, false, ◌&&◌, ◌||◌}
use mathlib.Core.List.{[], ◌∷◌, ◌++◌}
use native.Mathlib.Omega.{arith}
use mx.Common.Tests.{ltb, leb, ◌==◌, if◌then◌else◌, Bool-cases}
use mx.Common.Lists.{all}
use mx.Common.Texts.{Text, codes}
use mx.Common.Int.{ℤ, pos, negsuc}
use mathlib.Core.Logic.{◌≢◌, inl, inr}

abbrev pub is_digit : ℕ → Bool
is_digit c = leb b'0' c && leb c b'9'

-- The digits of `n`, the most significant first, in at most `k` places.
pub digits_of : ℕ → ℕ → Text
digits_of zero n = []
digits_of (suc k) n =
    let rest = digits_of k (n / 10) in
    if ltb n 10 then (n + b'0') ∷ [] else rest ++ (n % 10 + b'0') ∷ []

unfoldable pub i64_to_string : ℤ → Text
unfolding digits_of
i64_to_string (pos n) = digits_of 19 n
i64_to_string (negsuc n) = b'-' ∷ digits_of 19 (suc n)

-- The shape in which numbers are printed: a sign or a digit, then digits and decimal points.
abbrev is_fraction_char : ℕ → Bool
is_fraction_char c = is_digit c || c == b'.'

abbrev pub is_plain : Text → Bool
is_plain [] = false
is_plain (c ∷ cs) = (c == b'-' || is_digit c) && all is_fraction_char cs

all-concat :
    (p : ℕ → Bool) (cs : Text) (c : ℕ) → all p cs ≡ true → p c ≡ true → all p (cs ++ c ∷ []) ≡ true
all-concat p [] c h k = ground arith
all-concat p (d ∷ cs) c h k = ground (arith, all-concat p cs c)

all_digits : (k n : ℕ) → all is_digit (digits_of k n) ≡ true
unfolding digits_of
all_digits zero n = refl
all_digits (suc k) n = elim (Bool-cases (ltb n 10)) [
  | inl one ↦ rw one (ground arith)
  | inr more ↦
      rw more (all-concat is_digit (digits_of k (n / 10)) _ (all_digits k (n / 10)) (ground arith))
]

all_fraction : (cs : Text) → all is_digit cs ≡ true → all is_fraction_char cs ≡ true
all_fraction [] h = refl
all_fraction (c ∷ cs) h = ground (arith, all_fraction cs)

is_plain_digits : (cs : Text) → all is_digit cs ≡ true → cs ≢ [] → is_plain cs ≡ true
is_plain_digits [] h k = absurd (k refl)
is_plain_digits (c ∷ cs) h k = ground (arith, all_fraction cs)

digits_of-ne-nil : (k n : ℕ) → digits_of (suc k) n ≢ []
unfolding digits_of
digits_of-ne-nil k n = elim (Bool-cases (ltb n 10)) [
  | inl one ↦ rw one (λ e. cc)
  | inr more ↦ rw more (concat-ne-nil (digits_of k (n / 10)) (n % 10 + b'0'))
]
  where
    concat-ne-nil : (cs : Text) (c : ℕ) → cs ++ c ∷ [] ≢ []
    concat-ne-nil [] c e = cc
    concat-ne-nil (d ∷ cs) c e = cc

pub is_plain-i64_to_string : (i : ℤ) → is_plain (i64_to_string i) ≡ true
unfolding i64_to_string
is_plain-i64_to_string (pos n) = is_plain_digits _ (all_digits 19 n) (digits_of-ne-nil 18 n)
is_plain-i64_to_string (negsuc n) = all_fraction (digits_of 19 (suc n)) (all_digits 19 (suc n))

i64_to_string-min : i64_to_string (negsuc 9223372036854775807) ≡ codes "-9223372036854775808"
unfolding i64_to_string
i64_to_string-min = refl
