-- ===== src/Json/Total.antt =====
-- The parser's recursion ends within the fuel that `parse` gives it (src/json.rs).
use mx.Common.{
  ap, ℕ, zero, suc, ◌+◌, ◌*◌, ◌≤◌, ◌≡◌, ◌≢◌, refl, ◌||◌, Text, [], ◌∷◌, arith, length, Result, ok,
  err, ◌>>=◌, ◌==◌,
}
use mx.Common.Decimal.{is_digit}
use mx.Json.{Json, Items, Fields}
use mx.Json.Number.{Float}
use mx.Json.Fuel.{
  fits, fails, ran_out, Fits, Fits-bind, Fits-bind_text, Fits-le, Fits-if, skip_ws-le, expect-Fits,
  parse_string-Fits, parse_number-Fits, parse_bool-Fits, parse_null-Fits,
}
use mx.Json.Read.{
  Error, out_of_fuel, skip_ws, expect, parse_string, parse_number, parse_bool, parse_null,
}
use mx.Json.Parse.{
  Read, after_item, after_entry, array_body, object_body, parse_array, parse_object, value_at,
  parse_value, parse_items, parse_entries, parse, enough_fuel,
}

-- `go` fits on every text shorter than `n`.
abbrev FitsBelow : {A : Type 0} → ℕ → (Text → Result Error (A × Text)) → Type 0
FitsBelow n go = (s : Text) → length s ≤ n → Fits (length s) (go s)

module _ (fl : Float) (total : ℕ) where
  open fl use {F}

  after_item-Fits :
      (go : Read fl total (Items F)) (v : Json F) (s : Text) (n : ℕ)
      → length s ≤ suc n
      → FitsBelow n go
      → Fits (length s) (after_item fl total go v s)
  unfolding after_item
  after_item-Fits go v [] n l h = fails refl
  after_item-Fits go v (c ∷ cs) n l h =
      Fits-if (c == b',')
        (Fits-bind (length cs) (suc (length cs)) (go cs) _ (h cs (omega arith))
          (λ a rest le. fits (omega arith)))
        (Fits-if (c == b']') (fits (omega arith)) (fails refl))

  after_entry-Fits :
      (go : Read fl total (Fields F)) (k : Text) (v : Json F) (s : Text) (n : ℕ)
      → length s ≤ suc n
      → FitsBelow n go
      → Fits (length s) (after_entry fl total go k v s)
  unfolding after_entry
  after_entry-Fits go k v [] n l h = fails refl
  after_entry-Fits go k v (c ∷ cs) n l h =
      Fits-if (c == b',')
        (Fits-bind (length cs) (suc (length cs)) (go cs) _ (h cs (omega arith))
          (λ a rest le. fits (omega arith)))
        (Fits-if (c == b'}') (fits (omega arith)) (fails refl))

  array_body-Fits :
      (go : Read fl total (Items F)) (s : Text) (n : ℕ)
      → length s ≤ n
      → FitsBelow n go
      → Fits (length s) (array_body fl total go s)
  unfolding array_body
  array_body-Fits go [] n l h = Fits-bind 0 0 (go []) _ (h [] (omega arith)) (λ a rest le. fits le)
  array_body-Fits go (c ∷ cs) n l h = Fits-if (c == b']') (fits (omega arith)) (
      Fits-bind (suc (length cs)) (suc (length cs)) (go (c ∷ cs)) _ (h (c ∷ cs) l)
        (λ a rest le. fits le))

  object_body-Fits :
      (go : Read fl total (Fields F)) (s : Text) (n : ℕ)
      → length s ≤ n
      → FitsBelow n go
      → Fits (length s) (object_body fl total go s)
  unfolding object_body
  object_body-Fits go [] n l h = Fits-bind 0 0 (go []) _ (h [] (omega arith)) (λ a rest le. fits le)
  object_body-Fits go (c ∷ cs) n l h = Fits-if (c == b'}') (fits (omega arith)) (
      Fits-bind (suc (length cs)) (suc (length cs)) (go (c ∷ cs)) _ (h (c ∷ cs) l)
        (λ a rest le. fits le))

  parse_array-Fits :
      (go : Read fl total (Items F)) (n : ℕ) (s : Text)
      → length s ≤ suc n
      → FitsBelow n go
      → Fits n (parse_array fl total go s)
  unfolding parse_array
  parse_array-Fits go n s l h =
      Fits-bind_text n n (expect fl total b'[' s) _ (expect-Fits fl total b'[' n s l) (λ rest le.
        Fits-le (length (skip_ws rest)) n _
          (array_body-Fits go (skip_ws rest) n (omega (arith, skip_ws-le rest)) h)
          (omega (arith, skip_ws-le rest)))

  parse_object-Fits :
      (go : Read fl total (Fields F)) (n : ℕ) (s : Text)
      → length s ≤ suc n
      → FitsBelow n go
      → Fits n (parse_object fl total go s)
  unfolding parse_object
  parse_object-Fits go n s l h =
      Fits-bind_text n n (expect fl total b'{' s) _ (expect-Fits fl total b'{' n s l) (λ rest le.
        Fits-le (length (skip_ws rest)) n _
          (object_body-Fits go (skip_ws rest) n (omega (arith, skip_ws-le rest)) h)
          (omega (arith, skip_ws-le rest)))

  value_at-Fits :
      (items : Read fl total (Items F)) (entries : Read fl total (Fields F)) (n : ℕ) (s : Text)
      → length s ≤ suc n
      → FitsBelow n items
      → FitsBelow n entries
      → Fits (suc n) (value_at fl total items entries s)
  unfolding value_at
  value_at-Fits items entries n [] l h k = fails refl
  value_at-Fits items entries n (c ∷ cs) l h k =
      Fits-if (c == b'"')
        (Fits-bind n (suc n) (parse_string fl total (c ∷ cs)) _
          (parse_string-Fits fl total n (c ∷ cs) l) (λ a rest le. fits (omega arith)))
        (Fits-if (c == b'{')
          (Fits-le n (suc n) (parse_object fl total entries (c ∷ cs))
            (parse_object-Fits entries n (c ∷ cs) l k) (omega arith))
          (Fits-if (c == b'[')
            (Fits-le n (suc n) (parse_array fl total items (c ∷ cs))
              (parse_array-Fits items n (c ∷ cs) l h) (omega arith))
            (Fits-if (c == b't' || c == b'f')
              (Fits-le (suc (length cs)) (suc n) (parse_bool fl total (c ∷ cs))
                (parse_bool-Fits fl total (c ∷ cs)) l)
              (Fits-if (c == b'n')
                (Fits-le (suc (length cs)) (suc n) (parse_null fl total (c ∷ cs))
                  (parse_null-Fits fl total (c ∷ cs)) l)
                (Fits-if (c == b'-' || is_digit c)
                  (Fits-le (suc (length cs)) (suc n) (parse_number fl total (c ∷ cs))
                    (parse_number-Fits fl total (c ∷ cs)) l)
                  (fails refl))))))

  mutual
    unfolding parse_value value_at skip_ws parse_string expect

    parse_value-Fits :
        (f : ℕ) (s : Text) → 2 * length s + 1 ≤ f → Fits (length s) (parse_value fl total f s)
    parse_value-Fits zero s l = absurd (omega arith)
    parse_value-Fits (suc f) [] l = fails refl
    parse_value-Fits (suc f) (c ∷ cs) l =
        value_at-Fits (parse_items fl total f) (parse_entries fl total f) (length cs)
          (skip_ws (c ∷ cs)) (skip_ws-le (c ∷ cs)) (λ t le. parse_items-Fits f t (omega arith))
          (λ t le. parse_entries-Fits f t (omega arith))

    parse_items-Fits :
        (f : ℕ) (s : Text) → 2 * length s + 2 ≤ f → Fits (length s) (parse_items fl total f s)
    parse_items-Fits zero s l = absurd (omega arith)
    parse_items-Fits (suc zero) [] l = absurd (omega arith)
    parse_items-Fits (suc (suc f)) [] l = fails refl
    parse_items-Fits (suc f) (c ∷ cs) l =
        Fits-bind (suc (length cs)) (suc (length cs)) (parse_value fl total f (c ∷ cs)) _
          (parse_value-Fits f (c ∷ cs) (omega arith))
          (λ v rest le.
            Fits-le (length (skip_ws rest)) (suc (length cs)) _
              (after_item-Fits (parse_items fl total f) v (skip_ws rest) (length cs)
                (omega (arith, skip_ws-le rest)) (λ t below. parse_items-Fits f t (omega arith)))
              (omega (arith, skip_ws-le rest)))

    parse_entries-Fits :
        (f : ℕ) (s : Text) → 2 * length s + 2 ≤ f → Fits (length s) (parse_entries fl total f s)
    parse_entries-Fits zero s l = absurd (omega arith)
    parse_entries-Fits (suc f) [] l = fails refl
    parse_entries-Fits (suc f) (c ∷ cs) l =
        Fits-bind (length cs) (suc (length cs)) (parse_string fl total (skip_ws (c ∷ cs))) _
          (parse_string-Fits fl total (length cs) (skip_ws (c ∷ cs)) (skip_ws-le (c ∷ cs)))
          (λ k rest le.
            Fits-bind_text (length cs) (suc (length cs)) (expect fl total b':' (skip_ws rest)) _
              (expect-Fits fl total b':' (length cs) (skip_ws rest)
                (omega (arith, skip_ws-le rest)))
              (λ rest' le'.
                Fits-bind (length cs) (suc (length cs)) (parse_value fl total f rest') _
                  (Fits-le (length rest') (length cs) (parse_value fl total f rest')
                    (parse_value-Fits f rest' (omega arith)) le')
                  (λ v rest'' le''.
                    Fits-le (length (skip_ws rest'')) (suc (length cs)) _
                      (after_entry-Fits (parse_entries fl total f) k v (skip_ws rest'') (length cs)
                        (omega (arith, skip_ws-le rest''))
                        (λ t below. parse_entries-Fits f t (omega arith)))
                      (omega (arith, skip_ws-le rest'')))))

err-injective : {A : Type 0} {x y : Error} → ◌≡◌ {A = Result Error A} (err x) (err y) → x ≡ y
err-injective h = cc

-- The parser ends on every text: the fuel that `parse` gives its recursion, which the source does
-- without, never runs out.
pub parse-ne-out_of_fuel : (fl : Float) (input : Text) → parse fl input ≢ err out_of_fuel
unfolding parse
parse-ne-out_of_fuel fl input e =
    ended (parse_value fl (length input) (enough_fuel input) (skip_ws input))
      (parse_value-Fits fl (length input) (enough_fuel input) (skip_ws input)
        (omega (arith, skip_ws-le input)))
      e
  where
    ended :
        (r : Result Error (Json fl.F × Text))
        → Fits (length (skip_ws input)) r
        → (r >>= (λ p. ok p.0)) ≢ err out_of_fuel
    ended _ (fits h) e' = cc
    ended _ (fails h) e' = let same = ap ran_out (err-injective e') in cc
