-- ===== src/Common/Runs.antt =====
-- Rust's panics, and recursion whose end is not evident.
use mathlib.Core.Bool.{Bool, true, false}
use mathlib.Core.Option.{Option, none, some}
use mathlib.Core.Path.{◌≡◌}

-- What a method does that may panic, or whose recursion may not end: `out_of_fuel` is the model's.
pub data Run {ℓ} (A : Type ℓ) : Type ℓ where
  done : A → Run A
  panic : Run A
  out_of_fuel : Run A

infixl 5 ◌>>=◌
abbrev pub ◌>>=◌ {ℓ κ} : {A : Type ℓ} {B : Type κ} (run : Run A) (next : A → Run B) → Run B
panic >>= next = panic
out_of_fuel >>= next = out_of_fuel
done a >>= next = next a

-- `assert!`.
abbrev pub assert : Bool → Run (Unit {0})
assert true = done tt
assert false = panic

infixl 5 ◌>>◌
abbrev pub ◌>>◌ {ℓ} : {B : Type ℓ} → Run (Unit {0}) → Run B → Run B
m >> next = m >>= λ _. next

-- An index into a vector: out of range it panics.
abbrev pub or_panic {ℓ} : {A : Type ℓ} → Option A → Run A
or_panic none = panic
or_panic (some a) = done a

pub done_inj {ℓ} : {A : Type ℓ} {a b : A} → done a ≡ done b → a ≡ b
done_inj h = cc
