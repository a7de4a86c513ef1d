-- ===== src/Symtab/Calls.antt =====
-- Sequences of calls of the symbol table's methods (src/symtab.rs): a caller names scopes by 0, the
-- global one, and by the numbers that the methods have returned.
use mx.Common.{
  ℕ, ◌+◌, ◌<◌, ◌≡◌, refl, sym, ap, ◌∙◌, Bool, Text, Option, none, some, List, [], ◌∷◌, ◌++◌, arith,
  length, length-append, length-set, get_elem?, Option-cases, ok, ◌⊎◌, inl, inr,
}
use mathlib.Core.Path.{subst}
use mx.Symtab.{Symbol, ParamInfo, Scope, SymbolTable}
use mx.Common.Runs.{done_inj}
use mx.Symtab.Names.{done, modify}
use mx.Symtab.Search.{scope_of}
use mx.Symtab.Define.{define-eq-ok}
use mx.Symtab.Change.{
  new, push_scope, push_scope_with_parent, reenter_scope, pop_scope, clear_scope, define,
  define_in_current, update_procedure, set_exported, update_in_scope, with_symbols, empty_scope,
}
use mx.Symtab.Valid.{IsValid, AllBelow, AllBelow-le, Below}
use mx.Symtab.Keep.{
  push_scope-eq, current_scope-done, push, push_with_parent, reenter, pop, clear, define_at,
  define_current, update_proc, export, update, new-IsValid, Step-IsValid,
}

unfoldable pub Among : ℕ → List ℕ → Type 0
Among id [] = ⊥
Among id (i ∷ is) = (id ≡ i) ⊎ Among id is

AllBelow-Among : (n id : ℕ) (ids : List ℕ) → AllBelow n ids → Among id ids → id < n
unfolding Among
AllBelow-Among n id [] h m = absurd m
AllBelow-Among n id (i ∷ is) h (inl e) = subst (λ z. z < n) (sym e) h.0
AllBelow-Among n id (i ∷ is) h (inr m) = AllBelow-Among n id is h.1 m

-- The scope of a module symbol is one of these.
unfoldable pub ScopeAmong : Option ℕ → List ℕ → Type 0
ScopeAmong none ids = Unit
ScopeAmong (some id) ids = Among id ids

-- The tables that a caller can have, with the numbers of scopes that it knows: 0, and those that the
-- methods have returned. It passes only these to `reenter_scope`, as a parent, and in module symbols.
pub data Calls : SymbolTable → List ℕ → Type 0 where
  created : Calls new (0 ∷ [])
  pushed :
      {t : SymbolTable} {ids : List ℕ} (t' : SymbolTable) (name : Text) (id : ℕ)
      → Calls t ids
      → push_scope t name ≡ done (t', id)
      → Calls t' (id ∷ ids)
  pushed_under :
      {t : SymbolTable} {ids : List ℕ} (name : Text) (parent : ℕ)
      → Calls t ids
      → Among parent ids
      → Calls
          (push_scope_with_parent t name parent).0
          ((push_scope_with_parent t name parent).1 ∷ ids)
  reentered :
      {t : SymbolTable} {ids : List ℕ} (id : ℕ)
      → Calls t ids
      → Among id ids
      → Calls (reenter_scope t id) ids
  left :
      {t : SymbolTable} {ids : List ℕ} (t' : SymbolTable) (id : ℕ)
      → Calls t ids
      → pop_scope t ≡ done (t', id)
      → Calls t' ids
  cleared : {t : SymbolTable} {ids : List ℕ} (id : ℕ) → Calls t ids → Calls (clear_scope t id) ids
  defined :
      {t : SymbolTable} {ids : List ℕ} (t' : SymbolTable) (id : ℕ) (sym : Symbol)
      → Calls t ids
      → ScopeAmong (scope_of sym.kind) ids
      → define t id sym ≡ done (ok t')
      → Calls t' ids
  defined_here :
      {t : SymbolTable} {ids : List ℕ} (t' : SymbolTable) (sym : Symbol)
      → Calls t ids
      → ScopeAmong (scope_of sym.kind) ids
      → define_in_current t sym ≡ done (ok t')
      → Calls t' ids
  updated_procedure :
      {t : SymbolTable} {ids : List ℕ} (t' : SymbolTable) (id : ℕ) (name : Text)
      (params : List ParamInfo) (ret : Option ℕ)
      → Calls t ids
      → update_procedure t id name params ret ≡ done t'
      → Calls t' ids
  exported :
      {t : SymbolTable} {ids : List ℕ} (id : ℕ) (name : Text) (flag : Bool)
      → Calls t ids
      → Calls (set_exported t id name flag) ids
  -- What a caller of `lookup_in_scope_mut` does to a symbol leaves the scope of a module symbol.
  updated :
      {t : SymbolTable} {ids : List ℕ} (id : ℕ) (name : Text) (f : Symbol → Symbol)
      → Calls t ids
      → ((s : Symbol) → scope_of (f s).kind ≡ scope_of s.kind)
      → Calls (update_in_scope t id name f) ids

length-with_symbols :
    (t : SymbolTable) (id : ℕ) (scope : Scope) (m : List (Text × Symbol))
    → length (with_symbols t id scope m).scopes ≡ length t.scopes
length-with_symbols t id scope m = length-set t.scopes id (record scope { symbols = m })

length-update_in_scope :
    (t : SymbolTable) (id : ℕ) (name : Text) (f : Symbol → Symbol)
    → length (update_in_scope t id name f).scopes ≡ length t.scopes
unfolding update_in_scope
length-update_in_scope t id name f = elim (Option-cases (get_elem? t.scopes id)) [
  | inl e ↦ rw (e, update_in_scope) refl
  | inr (scope, e) ↦
      rw (e, update_in_scope) (length-with_symbols t id scope (modify name f scope.symbols))
]

length-set_exported :
    (t : SymbolTable) (id : ℕ) (name : Text) (flag : Bool)
    → length (set_exported t id name flag).scopes ≡ length t.scopes
unfolding set_exported
length-set_exported t id name flag = elim (Option-cases (get_elem? t.scopes id)) [
  | inl e ↦ rw (e, set_exported) refl
  | inr (scope, e) ↦ rw (e, set_exported) (length-with_symbols t id scope _)
]

length-clear_scope : (t : SymbolTable) (id : ℕ) → length (clear_scope t id).scopes ≡ length t.scopes
unfolding clear_scope
length-clear_scope t id = elim (Option-cases (get_elem? t.scopes id)) [
  | inl e ↦ rw (e, clear_scope) refl
  | inr (scope, e) ↦ rw (e, clear_scope) (length-with_symbols t id scope [])
]

length-define :
    (t t' : SymbolTable) (id : ℕ) (sym : Symbol)
    → define t id sym ≡ done (ok t')
    → length t'.scopes ≡ length t.scopes
length-define t t' id sym h =
    let (scope, e, written) = define-eq-ok t t' id sym h in
    rw written (length-with_symbols t id scope _)

length-define_in_current :
    (t t' : SymbolTable) (sym : Symbol)
    → IsValid t
    → define_in_current t sym ≡ done (ok t')
    → length t'.scopes ≡ length t.scopes
unfolding define_in_current
length-define_in_current t t' sym v h =
    let (top, e, below) = current_scope-done t v in length-define t t' top sym (rw e at h)

length-pop_scope :
    (t t' : SymbolTable) (id : ℕ)
    → IsValid t
    → pop_scope t ≡ done (t', id)
    → length t'.scopes ≡ length t.scopes
unfolding pop_scope
length-pop_scope t t' id v h =
    let (top, e, below) = current_scope-done t v in
    ap (λ (p : SymbolTable × ℕ). length p.0.scopes) (sym (done_inj (rw e at h)))

length-update_procedure :
    (t t' : SymbolTable) (id : ℕ) (name : Text) (params : List ParamInfo) (ret : Option ℕ)
    → update_procedure t id name params ret ≡ done t'
    → length t'.scopes ≡ length t.scopes
unfolding update_procedure
length-update_procedure t t' id name params ret h = elim (Option-cases (get_elem? t.scopes id)) [
  | inl e ↦ let bad = rw e at h in cc
  | inr (scope, e) ↦
      ap (λ (z : SymbolTable). length z.scopes) (sym (done_inj (rw e at h)))
      ∙ length-with_symbols t id scope _
]

length-push_scope :
    (t t' : SymbolTable) (name : Text) (id : ℕ)
    → IsValid t
    → push_scope t name ≡ done (t', id)
    → (length t'.scopes ≡ length t.scopes + 1) × (id ≡ length t.scopes)
unfolding push_scope_with_parent
length-push_scope t t' name id v h =
    let (top, e, below) = current_scope-done t v in
    let same = done_inj (sym h ∙ push_scope-eq t name top e) in
    (
      ap (λ (p : SymbolTable × ℕ). length p.0.scopes) same
          ∙ length-append t.scopes (empty_scope (some top) name ∷ []),
      ap (λ p. p.1) same,
    )

ScopeAmong-Below :
    (n : ℕ) (o : Option ℕ) (ids : List ℕ) → AllBelow n ids → ScopeAmong o ids → Below n o
unfolding ScopeAmong
ScopeAmong-Below n none ids h m = tt
ScopeAmong-Below n (some id) ids h m = AllBelow-Among n id ids h m

kept :
    (t : SymbolTable) {t' : SymbolTable} (ids : List ℕ)
    → length t'.scopes ≡ length t.scopes
    → IsValid t'
    → AllBelow (length t.scopes) ids
    → IsValid t' × AllBelow (length t'.scopes) ids
kept t {t'} ids e v h = (v, subst (λ n. AllBelow n ids) (sym e) h)

-- Every table that calls of the methods make from `SymbolTable::new` is valid, where a caller passes to
-- `reenter_scope`, as a parent and in module symbols only 0 and numbers that the methods have returned, and
-- its changes through `lookup_in_scope_mut` leave the scopes of module symbols: the parent of a scope is an
-- earlier scope, module symbols and the stack name scopes that exist, and the stack is not empty. And every
-- number that a method has returned still names a scope.
pub Calls-IsValid :
    {t : SymbolTable} {ids : List ℕ} → Calls t ids → IsValid t × AllBelow (length t.scopes) ids
unfolding reenter_scope push_scope_with_parent set_exported new
Calls-IsValid created = (new-IsValid, (new-IsValid.stack_below.0, tt))
Calls-IsValid {t} {ids} (pushed {t = before} t' name id c h) =
    let (v, below) = Calls-IsValid c in
    let (n, at) = length-push_scope before t' name id v h in
    (
      Step-IsValid (push before t' name id h) v,
      (
        omega (arith, n, at),
        AllBelow-le (length before.scopes) (length t'.scopes) _ (omega (arith, n)) below,
      ),
    )
Calls-IsValid (pushed_under {t = before} {ids = known} name parent c m) =
    let (v, below) = Calls-IsValid c in
    let n = length-append before.scopes (empty_scope (some parent) name ∷ []) in
    (
      Step-IsValid
          (push_with_parent before name parent
            (AllBelow-Among (length before.scopes) parent known below m))
          v,
      (
        omega (arith, n),
        AllBelow-le (length before.scopes)
            (length (before.scopes ++ empty_scope (some parent) name ∷ [])) known (omega (arith, n))
            below,
      ),
    )
Calls-IsValid (reentered {t = before} {ids = known} id c m) =
    let (v, below) = Calls-IsValid c in
    (
      Step-IsValid (reenter before id (AllBelow-Among (length before.scopes) id known below m)) v,
      below,
    )
Calls-IsValid (left {t = before} {ids = known} t' id c h) =
    let (v, below) = Calls-IsValid c in
    kept before known (length-pop_scope before t' id v h) (Step-IsValid (pop before t' id h) v)
      below
Calls-IsValid (cleared {t = before} {ids = known} id c) =
    let (v, below) = Calls-IsValid c in
    kept before known (length-clear_scope before id) (Step-IsValid (clear before id) v) below
Calls-IsValid (defined {t = before} {ids = known} t' id sym c m h) =
    let (v, below) = Calls-IsValid c in
    kept before known (length-define before t' id sym h)
      (Step-IsValid
        (define_at before t' id sym
          (ScopeAmong-Below (length before.scopes) (scope_of sym.kind) known below m) h)
        v)
      below
Calls-IsValid (defined_here {t = before} {ids = known} t' sym c m h) =
    let (v, below) = Calls-IsValid c in
    kept before known (length-define_in_current before t' sym v h)
      (Step-IsValid
        (define_current before t' sym
          (ScopeAmong-Below (length before.scopes) (scope_of sym.kind) known below m) h)
        v)
      below
Calls-IsValid (updated_procedure {t = before} {ids = known} t' id name params ret c h) =
    let (v, below) = Calls-IsValid c in
    kept before known (length-update_procedure before t' id name params ret h)
      (Step-IsValid (update_proc before t' id name params ret h) v) below
Calls-IsValid (exported {t = before} {ids = known} id name flag c) =
    let (v, below) = Calls-IsValid c in
    kept before known (length-set_exported before id name flag)
      (Step-IsValid (export before id name flag) v) below
Calls-IsValid (updated {t = before} {ids = known} id name f c same) =
    let (v, below) = Calls-IsValid c in
    kept before known (length-update_in_scope before id name f)
      (Step-IsValid
        (update before id name f
          (λ s fits. subst (Below (length before.scopes)) (sym (same s)) fits))
        v)
      below
