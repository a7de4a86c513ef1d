-- ===== src/Symtab/Names.antt =====
-- The map of symbols of one scope (`HashMap<String, Symbol>` in src/symtab.rs), and Rust's panics.
use mathlib.Core.Path.{subst}
pub use mx.Common.Runs.{Run, done, panic, out_of_fuel, ◌>>=◌, or_panic}
use mx.Common.{
  some_inj, ◌≡◌, refl, inl, inr, Text, text_eq, text_eq_iff, text_eq_refl, Option, none, some, List,
  [], ◌∷◌, arith, Bool-cases, if◌then◌else◌,
}

module _ {V : Type 0} where
  unfoldable pub get : Text → List (Text × V) → Option V
  get k [] = none
  get k ((j, v) ∷ m) = if text_eq j k then some v else get k m

  unfoldable pub insert : Text → V → List (Text × V) → List (Text × V)
  insert k v [] = (k, v) ∷ []
  insert k v ((j, w) ∷ m) = if text_eq j k then (k, v) ∷ m else (j, w) ∷ insert k v m

  -- `get_mut`, and a change of what it gives.
  unfoldable pub modify : Text → (V → V) → List (Text × V) → List (Text × V)
  modify k f [] = []
  modify k f ((j, w) ∷ m) = if text_eq j k then (j, f w) ∷ m else (j, w) ∷ modify k f m

  pub get-insert :
      (k j : Text) (v : V) (m : List (Text × V))
      → get j (insert k v m) ≡ (if text_eq k j then some v else get j m)
  unfolding get insert
  get-insert k j v [] = refl
  get-insert k j v ((i, w) ∷ m) =
      ground (
        arith,
        text_eq_iff k j,
        text_eq_iff i k,
        text_eq_iff i j,
        text_eq_refl j,
        get-insert k j v m,
      )

  pub get-modify :
      (k j : Text) (f : V → V) (m : List (Text × V))
      → get j (modify k f m)
        ≡ (if text_eq k j then elim (get j m) [ none ↦ none | some w ↦ some (f w) ] else get j m)
  unfolding get modify
  get-modify k j f [] = ground arith
  get-modify k j f ((i, w) ∷ m) =
      ground (
        arith,
        text_eq_iff k j,
        text_eq_iff i k,
        text_eq_iff i j,
        text_eq_refl j,
        get-modify k j f m,
      )

  -- A property of every value of the map.
  abbrev pub Values : (V → Type 0) → List (Text × V) → Type 0
  Values P [] = Unit
  Values P ((k, v) ∷ m) = P v × Values P m

  pub Values-get :
      (P : V → Type 0) (k : Text) (m : List (Text × V)) {v : V}
      → Values P m
      → get k m ≡ some v
      → P v
  unfolding get
  Values-get P k [] h e = cc
  Values-get P k ((j, w) ∷ m) h e = elim (Bool-cases (text_eq j k)) [
    | inl same ↦ subst P (some_inj (rw same at e)) h.0
    | inr other ↦ Values-get P k m h.1 (rw other at e)
  ]

  pub Values-insert :
      (P : V → Type 0) (k : Text) (v : V) (m : List (Text × V))
      → P v
      → Values P m
      → Values P (insert k v m)
  unfolding insert
  Values-insert P k v [] p h = (p, tt)
  Values-insert P k v ((j, w) ∷ m) p h = elim (Bool-cases (text_eq j k)) [
    | inl same ↦ rw (same, Values) (p, h.1)
    | inr other ↦ rw (other, Values) (h.0, Values-insert P k v m p h.1)
  ]

  pub Values-modify :
      (P : V → Type 0) (k : Text) (f : V → V) (m : List (Text × V))
      → ((v : V) → P v → P (f v))
      → Values P m
      → Values P (modify k f m)
  unfolding modify
  Values-modify P k f [] p h = tt
  Values-modify P k f ((j, w) ∷ m) p h = elim (Bool-cases (text_eq j k)) [
    | inl same ↦ rw (same, Values) (p w h.0, h.1)
    | inr other ↦ rw (other, Values) (h.0, Values-modify P k f m p h.1)
  ]
