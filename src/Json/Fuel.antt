-- ===== src/Json/Fuel.antt =====
-- The bound on the parser's recursion is never met: every call leaves a shorter input to the next
-- (src/json.rs).
use mx.Common.{
  ℕ, suc, ◌+◌, ◌≤◌, ◌≡◌, refl, Bool, true, false, Text, codes, Option, none, some, [], ◌∷◌, ◌++◌,
  arith, length, Result, ok, err, ◌>>=◌, ◌==◌, if◌then◌else◌, Option-cases, ◌-◌, Bool-cases, inl,
  inr,
}
use mx.Json.{Json, null, bool}
use mx.Json.Number.{Float}
use mx.Json.Read.{
  Error, out_of_fuel, skip_ws, string_loop, escape_loop, number_loop, number_text, strip, expect,
  expect_here, read_escape, expected_bool, expected_null, parse_string, parse_number, parse_bool,
  parse_null,
}

abbrev pub ran_out : Error → Bool
ran_out out_of_fuel = true
ran_out _ = false

-- A result that is no lack of fuel, and leaves at most `n` characters.
pub data Fits {A : Type 0} (n : ℕ) : Result Error (A × Text) → Type 0 where
  fits : {a : A} {rest : Text} → length rest ≤ n → Fits n (ok (a, rest))
  fails : {e : Error} → ran_out e ≡ false → Fits n (err e)

abbrev pub FitsText : ℕ → Result Error Text → Type 0
FitsText n (ok rest) = length rest ≤ n
FitsText n (err e) = ran_out e ≡ false

abbrev FitsOption : ℕ → Option Text → Type 0
FitsOption n none = Unit
FitsOption n (some rest) = length rest ≤ n

pub Fits-bind :
    {A B : Type 0} (m n : ℕ) (r : Result Error (A × Text)) (k : A × Text → Result Error (B × Text))
    → Fits m r
    → ((a : A) (rest : Text) → length rest ≤ m → Fits n (k (a, rest)))
    → Fits n (r >>= k)
Fits-bind m n _ k (fits {a} {rest} h) next = next a rest h
Fits-bind m n _ k (fails h) next = fails h

pub Fits-bind_text :
    {B : Type 0} (m n : ℕ) (r : Result Error Text) (k : Text → Result Error (B × Text))
    → FitsText m r
    → ((rest : Text) → length rest ≤ m → Fits n (k rest))
    → Fits n (r >>= k)
Fits-bind_text m n (ok rest) k h next = next rest h
Fits-bind_text m n (err e) k h next = fails h

pub Fits-le : {A : Type 0} (m n : ℕ) (r : Result Error (A × Text)) → Fits m r → m ≤ n → Fits n r
Fits-le m n _ (fits h) le = fits (omega arith)
Fits-le m n _ (fails h) le = fails h

pub Fits-if :
    {A : Type 0} {n : ℕ} (b : Bool) {x y : Result Error (A × Text)}
    → Fits n x
    → Fits n y
    → Fits n (if b then x else y)
Fits-if true h k = h
Fits-if false h k = k

pub skip_ws-le : (s : Text) → length (skip_ws s) ≤ length s
unfolding skip_ws
skip_ws-le [] = omega arith
skip_ws-le (c ∷ cs) = ground (arith, skip_ws-le cs)

mutual
  unfolding string_loop

  string_loop-Fits : (s cs : Text) → Fits (length cs) (string_loop s cs)
  string_loop-Fits s [] = fails refl
  string_loop-Fits s (c ∷ cs) = elim (Bool-cases (c == b'"')) [
    | inl e ↦ rw (e, string_loop) (fits (omega arith))
    | inr e ↦ elim (Bool-cases (c == b'\\')) [
      | inl e' ↦
          rw (e, string_loop, e')
            (Fits-le (length cs) (suc (length cs)) (escape_loop s cs) (escape_loop-Fits s cs)
              (omega arith))
      | inr e' ↦
          rw (e, string_loop, e')
            (Fits-le (length cs) (suc (length cs)) (string_loop (s ++ c ∷ []) cs)
              (string_loop-Fits (s ++ c ∷ []) cs) (omega arith))
    ]
  ]

  escape_loop-Fits : (s cs : Text) → Fits (length cs) (escape_loop s cs)
  escape_loop-Fits s [] = fails refl
  escape_loop-Fits s (c ∷ cs) =
      Fits-le (length cs) (suc (length cs)) (string_loop (s ++ read_escape c) cs)
        (string_loop-Fits (s ++ read_escape c) cs) (omega arith)

number_loop-le : (k prev : ℕ) (s : Text) → length (number_loop k prev s).1 ≤ length s
unfolding number_loop
number_loop-le k prev [] = omega arith
number_loop-le k prev (c ∷ cs) = ground (arith, number_loop-le (k + 1) c cs)

number_text-le : (s : Text) → length (number_text s).1 ≤ length s
unfolding number_text
number_text-le [] = omega arith
number_text-le (c ∷ cs) = ground (arith, number_loop-le 1 c cs, number_loop-le 0 c (c ∷ cs))

FitsOption-suc : (n : ℕ) (o : Option Text) → FitsOption n o → FitsOption (suc n) o
FitsOption-suc n none h = tt
FitsOption-suc n (some rest) h = omega arith

strip-Fits : (w s : Text) → FitsOption (length s) (strip w s)
unfolding strip
strip-Fits [] s = omega arith
strip-Fits (w ∷ ws) [] = tt
strip-Fits (w ∷ ws) (c ∷ cs) = elim (Bool-cases (c == w)) [
  | inl e ↦ rw e (FitsOption-suc (length cs) (strip ws cs) (strip-Fits ws cs))
  | inr e ↦ rw e tt
]

module _ (fl : Float) (total : ℕ) where
  open fl use {F, parse}

  expect_here-Fits :
      (ch n : ℕ) (s : Text) → length s ≤ suc n → FitsText n (expect_here fl total ch s)
  unfolding expect_here
  expect_here-Fits ch n [] h = refl
  expect_here-Fits ch n (c ∷ cs) h = elim (Bool-cases (c == ch)) [
    | inl e ↦ rw e (omega arith)
    | inr e ↦ rw e refl
  ]

  pub expect-Fits : (ch n : ℕ) (s : Text) → length s ≤ suc n → FitsText n (expect fl total ch s)
  unfolding expect
  expect-Fits ch n s h = expect_here-Fits ch n (skip_ws s) (omega (arith, skip_ws-le s))

  pub parse_string-Fits : (n : ℕ) (s : Text) → length s ≤ suc n → Fits n (parse_string fl total s)
  unfolding parse_string
  parse_string-Fits n s h =
      Fits-bind_text n n (expect fl total b'"' s) (string_loop []) (expect-Fits b'"' n s h)
        (λ rest le. Fits-le (length rest) n (string_loop [] rest) (string_loop-Fits [] rest) le)

  pub parse_number-Fits : (s : Text) → Fits (length s) (parse_number fl total s)
  unfolding parse_number
  parse_number-Fits s = elim (Option-cases (parse (number_text s).0)) [
    | inl e ↦ rw (e, parse_number) (fails refl)
    | inr (n, e) ↦ rw (e, parse_number) (fits (number_text-le s))
  ]

  pub parse_bool-Fits : (s : Text) → Fits (length s) (parse_bool fl total s)
  unfolding parse_bool
  parse_bool-Fits s =
      parse_bool_cases (strip (codes "true") s) (strip (codes "false") s)
        (strip-Fits (codes "true") s) (strip-Fits (codes "false") s)
    where
      parse_bool_cases :
          (o o' : Option Text)
          → FitsOption (length s) o
          → FitsOption (length s) o'
          → Fits {A = Json F} (length s) (elim o [
            | some rest ↦ ok (bool true, rest)
            | none ↦ elim o' [
              | some rest ↦ ok (bool false, rest)
              | none ↦ err (expected_bool (total - length s))
            ]
          ])
      parse_bool_cases (some r) o' h h' = fits h
      parse_bool_cases none (some r) h h' = fits h'
      parse_bool_cases none none h h' = fails refl

  pub parse_null-Fits : (s : Text) → Fits (length s) (parse_null fl total s)
  unfolding parse_null
  parse_null-Fits s = parse_null_cases (strip (codes "null") s) (strip-Fits (codes "null") s)
    where
      parse_null_cases :
          (o : Option Text)
          → FitsOption (length s) o
          → Fits {A = Json F} (length s) (elim o [
            | some rest ↦ ok (null, rest)
            | none ↦ err (expected_null (total - length s))
          ])
      parse_null_cases (some r) h = fits h
      parse_null_cases none h = fails refl
