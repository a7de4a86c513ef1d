-- ===== src/Types/Acyclic.antt =====
-- Registries in which no type refers to itself: there the recursions of src/types.rs end, and no
-- lookup panics.
use mx.Common.{
  ℕ, zero, suc, ◌+◌, ◌<◌, ◌≤◌, ◌==◌, ◌≡◌, refl, Bool, true, false, ◌&&◌, ◌||◌, Option, none, some,
  List, [], ◌∷◌, length, arith, get_elem?-some, get_elem?-lt, some_inj,
}
use mathlib.Core.Path.{subst}
use mx.Types.{Ty, ParamType, alias, subrange, procedure_type}
use mx.Types.Registry.{TypeRegistry, get, ty_error}
use mx.Types.Compat.{
  and_then, or_else, same_bool, zip_all, params_match, returns_match, procedures_match,
  alias_target, subrange_base, resolve, assign_types, assign_fuel, express_fuel, mixes, enough_fuel,
  expression_compatible, assignment_compatible, assignable,
}
use mx.Common.Runs.{Run, done, ◌>>=◌}

-- The types along which the checks recur: those that an alias, a subrange, and a procedure type's
-- parameters and result name. `rank` falls along them.
module _ (rank : ℕ → ℕ) where
  abbrev pub OptionBelow : ℕ → Option ℕ → Type 0
  OptionBelow n none = Unit
  OptionBelow n (some u) = rank u < n

  abbrev pub ParamsBelow : ℕ → List ParamType → Type 0
  ParamsBelow n [] = Unit
  ParamsBelow n (p ∷ ps) = (rank p.typ < n) × ParamsBelow n ps

  abbrev pub RefersBelow : ℕ → Ty → Type 0
  RefersBelow n (alias m t) = rank t < n
  RefersBelow n (subrange b lo hi) = rank b < n
  RefersBelow n (procedure_type ps r) = ParamsBelow n ps × OptionBelow n r
  RefersBelow n _ = Unit

-- The references of a type, each to a type of the registry.
abbrev pub InRange : ℕ → Ty → Type 0
InRange n = RefersBelow (λ t. t) n

-- No type of the registry refers to itself, over any number of steps: a rank falls along the
-- references.
pub record IsAcyclic (reg : TypeRegistry) (rank : ℕ → ℕ) : Type 0 where
  pub bounded : (id : ℕ) → id < length reg → rank id ≤ length reg
  pub falls : (id : ℕ) (t : Ty) → get reg id ≡ some t → RefersBelow rank (rank id) t
  pub in_range : (id : ℕ) (t : Ty) → get reg id ≡ some t → InRange (length reg) t

-- A registry in which each type refers to earlier ones only; its first type has the number `n`.
abbrev pub InOrder : ℕ → TypeRegistry → Type 0
InOrder n [] = Unit
InOrder n (t ∷ ts) = InRange n t × InOrder (suc n) ts

ParamsBelow-le :
    {m n : ℕ}
    → m ≤ n
    → (ps : List ParamType) → ParamsBelow (λ t. t) m ps
    → ParamsBelow (λ t. t) n ps
ParamsBelow-le l [] h = h
ParamsBelow-le l (p ∷ ps) h = (omega (arith, h.0, l), ParamsBelow-le l ps h.1)

OptionBelow-le :
    {m n : ℕ} → m ≤ n → (r : Option ℕ) → OptionBelow (λ t. t) m r → OptionBelow (λ t. t) n r
OptionBelow-le l none h = h
OptionBelow-le l (some u) h = omega (arith, h, l)

InRange-le : {m n : ℕ} → m ≤ n → (t : Ty) → InRange m t → InRange n t
InRange-le l (alias m t) h = omega (arith, h, l)
InRange-le l (subrange b lo hi) h = omega (arith, h, l)
InRange-le l (procedure_type ps r) h = (ParamsBelow-le l ps h.0, OptionBelow-le l r h.1)
InRange-le l _ h = h

InOrder-get :
    (n : ℕ) (reg : TypeRegistry)
    → InOrder n reg
    → (id : ℕ) (t : Ty) → get reg id ≡ some t
    → InRange (n + id) t
InOrder-get n [] v id t h = cc
InOrder-get n (x ∷ reg) v zero t h = InRange-le (omega arith) t (subst (InRange n) (some_inj h) v.0)
InOrder-get n (x ∷ reg) v (suc id) t h =
    InRange-le (omega arith) t (InOrder-get (suc n) reg v.1 id t h)

-- A registry that is in order is acyclic, with the number of a type as its rank.
pub InOrder-IsAcyclic : (reg : TypeRegistry) → InOrder 0 reg → IsAcyclic reg (λ t. t)
InOrder-IsAcyclic reg v = record {
  bounded = λ id l. omega (arith, l);
  falls = λ id t h. InRange-le (omega arith) t (InOrder-get 0 reg v id t h);
  in_range =
      λ id t h. InRange-le (omega (arith, get_elem?-lt reg id h)) t (InOrder-get 0 reg v id t h);
}

-- A run that returns.
pub data Ends : Run Bool → Type 0 where
  ends : (b : Bool) → Ends (done b)

Ends-bind :
    {m : Run Bool} (k : Bool → Run Bool) → Ends m → ((b : Bool) → Ends (k b)) → Ends (m >>= k)
Ends-bind k (ends b) h = h b

Ends-or_else : {m : Run Bool} (b : Bool) → Ends m → Ends (or_else b m)
Ends-or_else true h = ends true
Ends-or_else false h = h

Ends-and_then : {m : Run Bool} (b : Bool) → Ends m → Ends (and_then b m)
Ends-and_then true h = h
Ends-and_then false h = ends false

module _ (n : ℕ) (rank : ℕ → ℕ) (go : ℕ → ℕ → Run Bool) (dst src : ℕ) (dst_lt : dst < n)
    (src_lt : src < n)
    (smaller : (p q : ℕ)
      → rank p + rank q < rank dst + rank src
      → p < n
      → q < n
      → Ends (go p q)) where
  zip_all-Ends :
      (dp sp : List ParamType)
      → ParamsBelow rank (rank dst) dp
      → ParamsBelow rank (rank src) sp
      → ParamsBelow (λ t. t) n dp
      → ParamsBelow (λ t. t) n sp
      → Ends (zip_all go dp sp)
  unfolding zip_all
  zip_all-Ends [] sp h k i j = ends true
  zip_all-Ends (a ∷ dp) [] h k i j = ends true
  zip_all-Ends (a ∷ dp) (b ∷ sp) h k i j = Ends-and_then (same_bool a.is_var b.is_var) (
      Ends-bind _ (Ends-or_else (a.typ == b.typ) (smaller a.typ b.typ (omega arith) i.0 j.0))
        (λ same. Ends-and_then same (zip_all-Ends dp sp h.1 k.1 i.1 j.1)))

  returns_match-Ends :
      (dr sr : Option ℕ)
      → OptionBelow rank (rank dst) dr
      → OptionBelow rank (rank src) sr
      → OptionBelow (λ t. t) n dr
      → OptionBelow (λ t. t) n sr
      → Ends (returns_match go dr sr)
  unfolding returns_match
  returns_match-Ends none none h k i j = ends true
  returns_match-Ends none (some s) h k i j = ends false
  returns_match-Ends (some d) none h k i j = ends false
  returns_match-Ends (some d) (some s) h k i j =
      Ends-or_else (d == s) (smaller d s (omega arith) i j)

  module _ (dt st : Ty) where
    abbrev Refer : Type 0
    Refer =
        RefersBelow rank (rank dst) dt
        × RefersBelow rank (rank src) st
        × InRange n dt
        × InRange n st

  procedures_match-Ends : (dt st : Ty) → Refer dt st → Ends (procedures_match go dt st)
  unfolding procedures_match params_match
  procedures_match-Ends (procedure_type dp dr) (procedure_type sp sr) h =
      Ends-bind _
        (Ends-and_then (length dp == length sp) (zip_all-Ends dp sp h.0.0 h.1.0 h.2.0 h.3.0))
        (λ params.
          Ends-bind _ (returns_match-Ends dr sr h.0.1 h.1.1 h.2.1 h.3.1)
            (λ returns. ends (params && returns)))
  procedures_match-Ends (procedure_type dp dr) _ h = ends false
  procedures_match-Ends _ _ h = ends false

  pub resolve-Ends : (dt st : Ty) → Refer dt st → Ends (resolve go dst src dt st)
  unfolding resolve alias_target subrange_base
  resolve-Ends (alias m t) st h = smaller t src (omega (arith, h.0)) h.2 src_lt
  resolve-Ends (subrange b lo hi) (alias m t) h = smaller dst t (omega (arith, h.1)) dst_lt h.3
  resolve-Ends (subrange b lo hi) _ h = smaller b src (omega (arith, h.0)) h.2 src_lt
  resolve-Ends _ (alias m t) h = smaller dst t (omega (arith, h.1)) dst_lt h.3
  resolve-Ends _ (subrange b lo hi) h = smaller dst b (omega (arith, h.1)) dst_lt h.3
  resolve-Ends _ _ h = ends false

  assign_types-Ends : (dt st : Ty) → Refer dt st → Ends (assign_types go dst src dt st)
  unfolding assign_types
  assign_types-Ends dt st h = Ends-or_else (assignable dst src dt st) (
      Ends-bind _ (procedures_match-Ends dt st h)
        (λ same. Ends-or_else same (resolve-Ends dt st h)))

ended : {m : Run Bool} → Ends m → (b : Bool) × (m ≡ done b)
ended (ends b) = (b, refl)

module _ (reg : TypeRegistry) (rank : ℕ → ℕ) (v : IsAcyclic reg rank) where
  assign_fuel-Ends :
      (f dst src : ℕ)
      → rank dst + rank src < f
      → dst < length reg
      → src < length reg
      → Ends (assign_fuel f reg dst src)
  unfolding assign_fuel
  assign_fuel-Ends zero dst src l d s = absurd (omega arith)
  assign_fuel-Ends (suc f) dst src l d s =
      let (dt, e) = get_elem?-some reg dst d in
      let (st, g) = get_elem?-some reg src s in
      Ends-or_else (dst == src) (
        Ends-or_else (dst == ty_error || src == ty_error) (
          rw (e, g)
            (assign_types-Ends (length reg) rank (assign_fuel f reg) dst src d s
              (λ p q less b c. assign_fuel-Ends f p q (omega arith) b c) dt st
              (v.falls dst dt e, v.falls src st g, v.in_range dst dt e, v.in_range src st g))))

  express_fuel-Ends :
      (f t1 t2 : ℕ)
      → rank t1 + rank t2 < f
      → t1 < length reg
      → t2 < length reg
      → Ends (express_fuel f reg t1 t2)
  unfolding express_fuel
  express_fuel-Ends zero t1 t2 l d s = absurd (omega arith)
  express_fuel-Ends (suc f) t1 t2 l d s =
      let (dt, e) = get_elem?-some reg t1 d in
      let (st, g) = get_elem?-some reg t2 s in
      Ends-or_else (t1 == t2) (
        Ends-or_else (t1 == ty_error || t2 == ty_error) (
          rw (e, g)
            (Ends-or_else (mixes dt st) (
              resolve-Ends (length reg) rank (express_fuel f reg) t1 t2 d s
                (λ p q less b c. express_fuel-Ends f p q (omega arith) b c) dt st
                (v.falls t1 dt e, v.falls t2 st g, v.in_range t1 dt e, v.in_range t2 st g)))))

  -- Where no type refers to itself, over any number of steps, and types refer only to types of the
  -- registry, both compatibility checks return on any two types of the registry, without a panic.
  pub compatible-ends :
      (t1 t2 : ℕ)
      → t1 < length reg
      → t2 < length reg
      → ((b : Bool) × (assignment_compatible reg t1 t2 ≡ done b))
        × ((b : Bool) × (expression_compatible reg t1 t2 ≡ done b))
  unfolding assignment_compatible expression_compatible
  compatible-ends t1 t2 l k = (
    ended (
        assign_fuel-Ends (enough_fuel reg) t1 t2 (omega (arith, v.bounded t1 l, v.bounded t2 k)) l
          k),
    ended (
        express_fuel-Ends (enough_fuel reg) t1 t2 (omega (arith, v.bounded t1 l, v.bounded t2 k)) l
          k),
  )
