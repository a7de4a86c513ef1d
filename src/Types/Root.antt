-- ===== src/Types/Root.antt =====
-- The root of a type (src/types.rs): what is left of it when its aliases and subranges are followed.
use mx.Common.{
  ==_iff, ℕ, zero, suc, ◌+◌, ◌<◌, ◌==◌, ◌≡◌, refl, sym, ap, Bool, true, false, ◌&&◌, ◌||◌, none,
  some, length, arith, ◌⊎◌, get_elem?-some, some_inj, Option-cases, Bool-cases, inl, inr,
}
use mathlib.Core.Path.{subst, ap₂}
use mx.Common.Runs.{Run, done}
use mx.Types.{Ty, alias, subrange, error}
use mx.Types.Registry.{TypeRegistry, get, ty_error}
use mx.Types.Kind.{resolves_to, is_numeric, is_integer_type, is_set}
use mx.Types.Compat.{
  or_else, resolve, alias_target, subrange_base, express_fuel, mixes, is_address, enough_fuel,
  expression_compatible,
}
use mx.Types.Acyclic.{IsAcyclic}

-- `Root reg t r k`: aliases and subranges lead from `t` to `r`, whose type `k` is neither.
pub data Root (reg : TypeRegistry) : ℕ → ℕ → Ty → Type 0 where
  root_here : (t : ℕ) (k : Ty) → get reg t ≡ some k → resolves_to k ≡ none → Root reg t t k
  root_step :
      (t u r : ℕ) (x k : Ty)
      → get reg t ≡ some x
      → resolves_to x ≡ some u
      → Root reg u r k
      → Root reg t r k

-- What the check says of two roots.
unfoldable pub roots_agree : ℕ → Ty → ℕ → Ty → Bool
roots_agree r1 k1 r2 k2 = r1 == r2 || (r1 == ty_error || r2 == ty_error) || mixes k1 k2

resolves_to-parts :
    (x : Ty)
    → ((resolves_to x ≡ none) × (alias_target x ≡ none) × (subrange_base x ≡ none))
      ⊎ ((u : ℕ) × ((resolves_to x ≡ some u) × (alias_target x ≡ some u)))
      ⊎ ((u : ℕ) × ((resolves_to x ≡ some u)
            × (alias_target x ≡ none)
            × (subrange_base x ≡ some u)))
unfolding resolves_to alias_target subrange_base
resolves_to-parts (alias n u) = inr (inl (u, (refl, refl)))
resolves_to-parts (subrange u lo hi) = inr (inr (u, (refl, refl, refl)))
resolves_to-parts _ = inl (refl, refl, refl)

mixes-left : (x y : Ty) (u : ℕ) → resolves_to x ≡ some u → mixes x y ≡ false
unfolding mixes resolves_to is_numeric is_integer_type is_set is_address
mixes-left (alias n w) y u h = refl
mixes-left (subrange w lo hi) y u h = refl
mixes-left _ y u h = cc

mixes-right : (x y : Ty) (u : ℕ) → resolves_to y ≡ some u → mixes x y ≡ false
unfolding mixes resolves_to is_numeric is_integer_type is_set is_address
mixes-right x (alias n w) u h = ground arith
mixes-right x (subrange w lo hi) u h = ground arith
mixes-right x _ u h = cc

or_else-false : (b : Bool) → or_else b (done false) ≡ done b
or_else-false true = refl
or_else-false false = refl

-- One call of the check, where the calls behind it return what the roots say.
resolve-agrees :
    (go : ℕ → ℕ → Run Bool) (t1 t2 : ℕ) (x y : Ty) (b : Bool)
    → ((u : ℕ) → resolves_to x ≡ some u → go u t2 ≡ done b)
    → ((u : ℕ) → resolves_to y ≡ some u → go t1 u ≡ done b)
    → (resolves_to x ≡ none → resolves_to y ≡ none → b ≡ mixes x y)
    → or_else (mixes x y) (resolve go t1 t2 x y) ≡ done b
unfolding resolve
resolve-agrees go t1 t2 x y b left right both = elim (resolves_to-parts x) [
  | inl (n, a, s) ↦ elim (resolves_to-parts y) [
    | inl (n', a', s') ↦ rw (both n n', resolve, a, a', s, s') (or_else-false (mixes x y))
    | inr (inl (u', (n', a'))) ↦ rw (mixes-right x y u' n', resolve, a, a') (right u' n')
    | inr (inr (u', (n', a', s'))) ↦ rw (mixes-right x y u' n', resolve, a, a', s, s') (right u' n')
  ]
  | inr (inl (u, (n, a))) ↦ rw (mixes-left x y u n, resolve, a) (left u n)
  | inr (inr (u, (n, a, s))) ↦ elim (resolves_to-parts y) [
    | inl (n', a', s') ↦ rw (mixes-left x y u n, resolve, a, a', s) (left u n)
    | inr (inl (u', (n', a'))) ↦ rw (mixes-left x y u n, resolve, a, a') (right u' n')
    | inr (inr (u', (n', a', s'))) ↦ rw (mixes-left x y u n, resolve, a, a', s) (left u n)
  ]
]

or_right : (a b : Bool) → b ≡ true → (a || b) ≡ true
or_right a b h = ground arith

-- The disjunction of `mixes` with its sides swapped.
swap_sides :
    (n1 a1 i1 s1 n2 a2 i2 s2 : Bool)
    → (n1 && n2 || (a1 && i2) || (i1 && a2) || (a1 && a2) || (s1 && s2))
      ≡ (n2 && n1 || (a2 && i1) || (i2 && a1) || (a2 && a1) || (s2 && s1))
swap_sides n1 a1 i1 s1 n2 a2 i2 s2 = ground arith

same_comm : (a b : ℕ) → (a == b) ≡ (b == a)
same_comm a b = ground arith

or_comm : (a b : Bool) → (a || b) ≡ (b || a)
or_comm a b = ground arith

roots_agree_comm : (r1 r2 : ℕ) (k1 k2 : Ty) → roots_agree r1 k1 r2 k2 ≡ roots_agree r2 k2 r1 k1
unfolding roots_agree mixes
roots_agree_comm r1 r2 k1 k2 =
    ap₂ (λ a b. a || b)
      (ap₂ (λ a b. a || b) (same_comm r1 r2) (or_comm (r1 == ty_error) (r2 == ty_error)))
      (swap_sides (is_numeric k1) (is_address k1) (is_integer_type k1) (is_set k1) (is_numeric k2)
        (is_address k2) (is_integer_type k2) (is_set k2))

roots_agree-same : (r : ℕ) (k1 k2 : Ty) → roots_agree r k1 r k2 ≡ true
unfolding roots_agree
roots_agree-same r k1 k2 = ground arith

roots_agree-wrong :
    (r1 r2 : ℕ) (k1 k2 : Ty)
    → (r1 == ty_error || r2 == ty_error) ≡ true
    → roots_agree r1 k1 r2 k2 ≡ true
unfolding roots_agree
roots_agree-wrong r1 r2 k1 k2 h = ground arith

roots_agree-mixes :
    (r1 r2 : ℕ) (k1 k2 : Ty)
    → r1 == r2 ≡ false
    → (r1 == ty_error || r2 == ty_error) ≡ false
    → roots_agree r1 k1 r2 k2 ≡ mixes k1 k2
unfolding roots_agree
roots_agree-mixes r1 r2 k1 k2 h w = ground arith

module _ (reg : TypeRegistry) (rank : ℕ → ℕ) (v : IsAcyclic reg rank) where
  resolves_to-lt :
      (t u : ℕ) (x : Ty)
      → get reg t ≡ some x
      → resolves_to x ≡ some u
      → (rank u < rank t) × (u < length reg)
  unfolding resolves_to
  resolves_to-lt t u (alias n w) h e = (
    subst (λ z. rank z < rank t) (some_inj e) (v.falls t (alias n w) h),
    subst (λ z. z < length reg) (some_inj e) (v.in_range t (alias n w) h),
  )
  resolves_to-lt t u (subrange w lo hi) h e = (
    subst (λ z. rank z < rank t) (some_inj e) (v.falls t (subrange w lo hi) h),
    subst (λ z. z < length reg) (some_inj e) (v.in_range t (subrange w lo hi) h),
  )
  resolves_to-lt t u _ h e = cc

  -- Every type has a root.
  Root-exists : (n t : ℕ) → rank t < n → t < length reg → (r : ℕ) × ((k : Ty) × Root reg t r k)
  Root-exists zero t l h = absurd (omega arith)
  Root-exists (suc n) t l h =
      let (x, e) = get_elem?-some reg t h in
      elim (Option-cases (resolves_to x)) [
        | inl ends ↦ (t, (x, root_here t x e ends))
        | inr (u, leads) ↦
            let below = resolves_to-lt t u x e leads in
            let (r, rest) = Root-exists n u (omega (arith, below.0)) below.1 in
            (r, (rest.0, root_step t u r x rest.0 e leads rest.1))
      ]

  Root-unique :
      {t r1 r2 : ℕ} {k1 k2 : Ty} → Root reg t r1 k1 → Root reg t r2 k2 → (r1 ≡ r2) × (k1 ≡ k2)
  Root-unique (root_here t k e n) (root_here t2 k2 e2 n2) = (refl, cc)
  Root-unique (root_here t k e n) (root_step t2 u r x k2 e2 n2 q) = cc
  Root-unique (root_step t u r x k e n p) (root_here t2 k2 e2 n2) = cc
  Root-unique (root_step t u r x k e n p) (root_step t2 u2 r2 x2 k2 e2 n2 q) =
      Root-unique p (subst (λ z. Root reg z r2 k2) (cc) q)

  Root-final :
      {t r : ℕ} {k x : Ty}
      → Root reg t r k
      → get reg t ≡ some x
      → resolves_to x ≡ none
      → (r ≡ t) × (k ≡ x)
  Root-final p e n = Root-unique p (root_here _ _ e n)

  Root-next :
      {t r u : ℕ} {k x : Ty}
      → Root reg t r k
      → get reg t ≡ some x
      → resolves_to x ≡ some u
      → Root reg u r k
  Root-next (root_here t k e n) h a = cc
  Root-next (root_step t u r y k e n p) h a = subst (λ z. Root reg z r k) (cc) p

  module _ (at_error : get reg ty_error ≡ some error) where
    Root-error : {t r : ℕ} {k : Ty} → Root reg t r k → t == ty_error ≡ true → r == ty_error ≡ true
    unfolding resolves_to
    Root-error {t} {r} {k} p h =
        let is = (==_iff t ty_error).0 h in
        let final = Root-final (subst (λ z. Root reg z r k) is p) at_error refl in
        (==_iff r ty_error).1 final.0

    roots_agree-error :
        {t1 t2 r1 r2 : ℕ} {k1 k2 : Ty}
        → Root reg t1 r1 k1
        → Root reg t2 r2 k2
        → (t1 == ty_error || t2 == ty_error) ≡ true
        → roots_agree r1 k1 r2 k2 ≡ true
    roots_agree-error {t1} {t2} {r1} {r2} {k1} {k2} p q h =
        roots_agree-wrong r1 r2 k1 k2 (elim (Bool-cases (t1 == ty_error)) [
          | inl e ↦ rw (Root-error p e) refl
          | inr ne ↦ or_right (r1 == ty_error) (r2 == ty_error) (Root-error q (rw ne at h))
        ])

  express_step :
      (f t1 t2 : ℕ) (x y : Ty) (b : Bool)
      → get reg t1 ≡ some x
      → get reg t2 ≡ some y
      → (t1 == t2 ≡ true → b ≡ true)
      → ((t1 == ty_error || t2 == ty_error) ≡ true → b ≡ true)
      → (t1 == t2 ≡ false
          → (t1 == ty_error || t2 == ty_error) ≡ false
          → or_else (mixes x y) (resolve (express_fuel f reg) t1 t2 x y) ≡ done b)
      → express_fuel (suc f) reg t1 t2 ≡ done b
  unfolding express_fuel
  express_step f t1 t2 x y b e g same wrong rest = elim (Bool-cases (t1 == t2)) [
    | inl yes_same ↦ rw (yes_same, same yes_same) refl
    | inr other ↦ elim (Bool-cases (t1 == ty_error || t2 == ty_error)) [
      | inl yes_wrong ↦ rw (other, yes_wrong, wrong yes_wrong) refl
      | inr fine ↦ rw (other, fine, e, g) (rest other fine)
    ]
  ]

  express_fuel-Root :
      (at_error : get reg ty_error ≡ some error) (f t1 t2 r1 r2 : ℕ) (k1 k2 : Ty)
      → rank t1 + rank t2 < f
      → t1 < length reg
      → t2 < length reg
      → Root reg t1 r1 k1
      → Root reg t2 r2 k2
      → express_fuel f reg t1 t2 ≡ done (roots_agree r1 k1 r2 k2)
  express_fuel-Root at_error zero t1 t2 r1 r2 k1 k2 l d s p q = absurd (omega arith)
  express_fuel-Root at_error (suc f) t1 t2 r1 r2 k1 k2 l d s p q =
      let (x, e) = get_elem?-some reg t1 d in
      let (y, g) = get_elem?-some reg t2 s in
      express_step f t1 t2 x y (roots_agree r1 k1 r2 k2) e g
        (λ same.
          let both =
            Root-unique p (subst (λ z. Root reg z r2 k2) (sym ((==_iff t1 t2).0 same)) q) in
          rw both.0 (roots_agree-same r2 k1 k2))
        (λ wrong. roots_agree-error at_error p q wrong)
        (λ other fine.
          resolve-agrees (express_fuel f reg) t1 t2 x y (roots_agree r1 k1 r2 k2)
            (λ u a.
              let below = resolves_to-lt t1 u x e a in
              express_fuel-Root at_error f u t2 r1 r2 k1 k2 (omega (arith, l, below.0)) below.1 s
                (Root-next p e a) q)
            (λ u a.
              let below = resolves_to-lt t2 u y g a in
              express_fuel-Root at_error f t1 u r1 r2 k1 k2 (omega (arith, l, below.0)) d below.1 p
                (Root-next q g a))
            (λ n n'.
              let fp = Root-final p e n in
              let fq = Root-final q g n' in
              rw (fp.0, fp.1, fq.0, fq.1) (roots_agree-mixes t1 t2 x y other fine)))

  -- Where no type refers to itself and the error type has its number, expression_compatible on two
  -- types of the registry says exactly whether their roots are the same, or one of them is the error
  -- type, or `mixes` holds of their types.
  pub expression_compatible-Root :
      (at_error : get reg ty_error ≡ some error) (t1 t2 r1 r2 : ℕ) (k1 k2 : Ty)
      → t1 < length reg
      → t2 < length reg
      → Root reg t1 r1 k1
      → Root reg t2 r2 k2
      → expression_compatible reg t1 t2 ≡ done (roots_agree r1 k1 r2 k2)
  unfolding expression_compatible
  expression_compatible-Root at_error t1 t2 r1 r2 k1 k2 l k p q =
      express_fuel-Root at_error (enough_fuel reg) t1 t2 r1 r2 k1 k2
        (omega (arith, v.bounded t1 l, v.bounded t2 k)) l k p q

  -- Where no type refers to itself and the error type has its number, expression_compatible on two
  -- types of the registry does not depend on their order.
  pub expression_compatible_comm :
      (at_error : get reg ty_error ≡ some error) (t1 t2 : ℕ)
      → t1 < length reg
      → t2 < length reg
      → expression_compatible reg t1 t2 ≡ expression_compatible reg t2 t1
  expression_compatible_comm at_error t1 t2 l k =
      let (r1, (k1, p)) = Root-exists (suc (rank t1)) t1 (omega arith) l in
      let (r2, (k2, q)) = Root-exists (suc (rank t2)) t2 (omega arith) k in
      rw
        (
          expression_compatible-Root at_error t1 t2 r1 r2 k1 k2 l k p q,
          expression_compatible-Root at_error t2 t1 r2 r1 k2 k1 k l q p,
        )
        (ap done (roots_agree_comm r1 r2 k1 k2))
