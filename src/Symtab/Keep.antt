-- ===== src/Symtab/Keep.antt =====
-- The methods that change a symbol table keep its invariant (src/symtab.rs).
use mathlib.Core.Path.{subst}
use mx.Common.{
  some_inj, zero, sym, ap, ◌∙◌, ℕ, ◌<◌, ◌≡◌, refl, ◌+◌, Bool, Text, Option, some, List, [], ◌∷◌,
  ◌++◌, arith, length, get_elem?, length-append, length-set, ok, Option-cases, inl, inr, suc,
}
use mx.Symtab.{
  Symbol, SymbolKind, Scope, SymbolTable, ParamInfo, constant, variable, type, procedure, module_at,
  field, enum_variant,
}
use mx.Common.Runs.{done_inj}
use mx.Symtab.Names.{Values, Values-insert, Values-modify, done, panic}
use mx.Symtab.Search.{scope_of}
use mx.Symtab.Change.{
  new, current_scope, push_scope, push_scope_with_parent, reenter_scope, pop_scope, popped,
  clear_scope, with_symbols, define, define_in_current, update_procedure, update_kind, set_exported,
  update_in_scope, empty_scope,
}
use mx.Symtab.Define.{define-eq-ok}
use mx.Symtab.Valid.{
  IsValid, SymbolFits, ScopeFits, AllBelow, AllBelow-le, ScopesFit-concat, ScopesFit-set, Below,
}

-- A call of a method that changes the table and does not fail, with what the method relies on: a
-- scope that is given by its number exists, and a module symbol names a scope.
pub data Step : SymbolTable → SymbolTable → Type 0 where
  push : (t t' : SymbolTable) (name : Text) (id : ℕ) → push_scope t name ≡ done (t', id) → Step t t'
  push_with_parent :
      (t : SymbolTable) (name : Text) (parent : ℕ)
      → parent < length t.scopes
      → Step t (push_scope_with_parent t name parent).0
  reenter : (t : SymbolTable) (id : ℕ) → id < length t.scopes → Step t (reenter_scope t id)
  pop : (t t' : SymbolTable) (id : ℕ) → pop_scope t ≡ done (t', id) → Step t t'
  clear : (t : SymbolTable) (id : ℕ) → Step t (clear_scope t id)
  define_at :
      (t t' : SymbolTable) (id : ℕ) (sym : Symbol)
      → SymbolFits (length t.scopes) sym
      → define t id sym ≡ done (ok t')
      → Step t t'
  define_current :
      (t t' : SymbolTable) (sym : Symbol)
      → SymbolFits (length t.scopes) sym
      → define_in_current t sym ≡ done (ok t')
      → Step t t'
  update_proc :
      (t t' : SymbolTable) (id : ℕ) (name : Text) (params : List ParamInfo) (ret : Option ℕ)
      → update_procedure t id name params ret ≡ done t'
      → Step t t'
  export :
      (t : SymbolTable) (id : ℕ) (name : Text) (exported : Bool)
      → Step t (set_exported t id name exported)
  update :
      (t : SymbolTable) (id : ℕ) (name : Text) (f : Symbol → Symbol)
      → ((s : Symbol) → SymbolFits (length t.scopes) s → SymbolFits (length t.scopes) (f s))
      → Step t (update_in_scope t id name f)

first_scope-ScopeFits :
    (id : ℕ) (first scope : Scope)
    → ScopeFits 1 0 first
    → get_elem? (first ∷ []) id ≡ some scope
    → ScopeFits 1 id scope
first_scope-ScopeFits zero first scope h e = subst (ScopeFits 1 0) (some_inj e) h
first_scope-ScopeFits (suc id) first scope h e = cc

pub new-IsValid : IsValid new
unfolding new
new-IsValid = record {
  scopes_fit =
      λ id scope e. first_scope-ScopeFits id _ scope (record { earlier = tt; modules = tt }) e;
  stack_below = omega arith;
  stack_ne = omega arith;
}

add_scope-IsValid :
    (t : SymbolTable) (name : Text) (parent : ℕ)
    → IsValid t
    → parent < length t.scopes
    → IsValid (push_scope_with_parent t name parent).0
unfolding push_scope_with_parent
add_scope-IsValid t name parent v h =
    let more : length (t.scopes ++ empty_scope (some parent) name ∷ []) ≡ length t.scopes + 1 =
      length-append t.scopes (empty_scope (some parent) name ∷ []) in
    record {
      scopes_fit =
          ScopesFit-concat t.scopes (empty_scope (some parent) name) v.scopes_fit
            (record { earlier = h; modules = tt });
      stack_below =
          (omega arith, AllBelow-le (length t.scopes) _ t.stack (omega arith) v.stack_below);
      stack_ne = omega arith;
    }

pub push_scope-eq :
    (t : SymbolTable) (name : Text) (top : ℕ)
    → current_scope t ≡ done top
    → push_scope t name ≡ done (push_scope_with_parent t name top)
unfolding push_scope push_scope_with_parent
push_scope-eq t name top h = rw h

with_symbols-IsValid :
    (t : SymbolTable) (id : ℕ) (scope : Scope) (m : List (Text × Symbol))
    → IsValid t
    → get_elem? t.scopes id ≡ some scope
    → Values (SymbolFits (length t.scopes)) m
    → IsValid (with_symbols t id scope m)
with_symbols-IsValid t id scope m v e h = record {
  scopes_fit =
      ScopesFit-set t.scopes id (record scope { symbols = m }) v.scopes_fit
        (record { earlier = (v.scopes_fit id scope e).earlier; modules = h });
  stack_below = rw (length-set t.scopes id (record scope { symbols = m })) v.stack_below;
  stack_ne = v.stack_ne;
}

-- A valid table has a current scope.
pub current_scope-done :
    (t : SymbolTable) → IsValid t → (id : ℕ) × (current_scope t ≡ done id) × (id < length t.scopes)
unfolding current_scope
current_scope-done t v = top t.stack v.stack_below v.stack_ne
  where
    top :
        (is : List ℕ)
        → AllBelow (length t.scopes) is
        → 0 < length is
        → (id : ℕ) × ((elim is [ [] ↦ panic | i ∷ rest ↦ done i ]) ≡ done id)
          × (id < length t.scopes)
    top [] b e = absurd (omega arith)
    top (i ∷ is) b e = (i, refl, b.0)

popped-AllBelow : (n : ℕ) (is : List ℕ) → AllBelow n is → AllBelow n (popped is)
popped-AllBelow n [] h = tt
popped-AllBelow n (i ∷ []) h = h
popped-AllBelow n (i ∷ j ∷ is) h = h.1

popped-ne : (is : List ℕ) → 0 < length is → 0 < length (popped is)
popped-ne [] h = h
popped-ne (i ∷ []) h = h
popped-ne (i ∷ j ∷ is) h = omega arith

-- The scope that a number names, and its symbols, fit.
entries-fit :
    (t : SymbolTable) (id : ℕ) (scope : Scope)
    → IsValid t
    → get_elem? t.scopes id ≡ some scope
    → Values (SymbolFits (length t.scopes)) scope.symbols
entries-fit t id scope v e = (v.scopes_fit id scope e).modules

update_kind-scope_of :
    (params : List ParamInfo) (ret : Option ℕ) (k : SymbolKind)
    → scope_of (update_kind params ret k) ≡ scope_of k
update_kind-scope_of params ret (procedure p r b) = refl
update_kind-scope_of params ret (constant c) = refl
update_kind-scope_of params ret variable = refl
update_kind-scope_of params ret type = refl
update_kind-scope_of params ret (module_at id) = refl
update_kind-scope_of params ret field = refl
update_kind-scope_of params ret (enum_variant i) = refl

-- A change of one scope's symbols, or of none where there is no such scope.
update-IsValid :
    (t : SymbolTable) (id : ℕ) (name : Text) (f : Symbol → Symbol)
    → ((s : Symbol) → SymbolFits (length t.scopes) s → SymbolFits (length t.scopes) (f s))
    → IsValid t
    → IsValid (update_in_scope t id name f)
unfolding update_in_scope
update-IsValid t id name f keep v = elim (Option-cases (get_elem? t.scopes id)) [
  | inl e ↦ rw (e, update_in_scope) v
  | inr (scope, e) ↦
      rw (e, update_in_scope)
        (with_symbols-IsValid t id scope _ v e (
          Values-modify (SymbolFits (length t.scopes)) name f scope.symbols keep
            (entries-fit t id scope v e)))
]

define-IsValid :
    (t t' : SymbolTable) (id : ℕ) (sym : Symbol)
    → IsValid t
    → SymbolFits (length t.scopes) sym
    → define t id sym ≡ done (ok t')
    → IsValid t'
define-IsValid t t' id sym v fits h =
    let (scope, e, written) = define-eq-ok t t' id sym h in
    rw written (
      with_symbols-IsValid t id scope _ v e (
        Values-insert (SymbolFits (length t.scopes)) sym.name _ scope.symbols fits
          (entries-fit t id scope v e)))

update_procedure-IsValid :
    (t t' : SymbolTable) (id : ℕ) (name : Text) (params : List ParamInfo) (ret : Option ℕ)
    → IsValid t
    → update_procedure t id name params ret ≡ done t'
    → IsValid t'
unfolding update_procedure
update_procedure-IsValid t t' id name params ret v h = elim (Option-cases (get_elem? t.scopes id)) [
  | inl e ↦ let bad = rw e at h in cc
  | inr (scope, e) ↦ subst IsValid (done_inj (rw e at h)) (
      with_symbols-IsValid t id scope _ v e (
        Values-modify (SymbolFits (length t.scopes)) name
          (λ s. record s { kind = update_kind params ret s.kind }) scope.symbols
          (λ s f. subst (Below (length t.scopes)) (sym (update_kind-scope_of params ret s.kind)) f)
          (entries-fit t id scope v e)))
]

push-IsValid :
    (t t' : SymbolTable) (name : Text) (id : ℕ)
    → IsValid t
    → push_scope t name ≡ done (t', id)
    → IsValid t'
push-IsValid t t' name id v h =
    let (top, e, below) = current_scope-done t v in
    subst IsValid (ap (λ p. p.0) (done_inj (sym (push_scope-eq t name top e) ∙ h)))
      (add_scope-IsValid t name top v below)

pop-IsValid : (t t' : SymbolTable) (id : ℕ) → IsValid t → pop_scope t ≡ done (t', id) → IsValid t'
unfolding pop_scope
pop-IsValid t t' id v h =
    let (top, e, below) = current_scope-done t v in
    subst IsValid (ap (λ p. p.0) (done_inj (rw e at h))) (record {
      scopes_fit = v.scopes_fit;
      stack_below = popped-AllBelow (length t.scopes) t.stack v.stack_below;
      stack_ne = popped-ne t.stack v.stack_ne;
    })

clear-IsValid : (t : SymbolTable) (id : ℕ) → IsValid t → IsValid (clear_scope t id)
unfolding clear_scope
clear-IsValid t id v = elim (Option-cases (get_elem? t.scopes id)) [
  | inl e ↦ rw (e, clear_scope) v
  | inr (scope, e) ↦ rw (e, clear_scope) (with_symbols-IsValid t id scope [] v e tt)
]

define_current-IsValid :
    (t t' : SymbolTable) (sym : Symbol)
    → IsValid t
    → SymbolFits (length t.scopes) sym
    → define_in_current t sym ≡ done (ok t')
    → IsValid t'
unfolding define_in_current
define_current-IsValid t t' sym v fits h =
    let (top, e, below) = current_scope-done t v in define-IsValid t t' top sym v fits (rw e at h)

reenter-IsValid :
    (t : SymbolTable) (id : ℕ) → IsValid t → id < length t.scopes → IsValid (reenter_scope t id)
unfolding reenter_scope
reenter-IsValid t id v h = record {
  scopes_fit = v.scopes_fit;
  stack_below = (h, v.stack_below);
  stack_ne = omega arith;
}

-- Every call that changes a valid table leaves a valid table.
pub Step-IsValid : {t t' : SymbolTable} → Step t t' → IsValid t → IsValid t'
unfolding set_exported update_in_scope
Step-IsValid (push t t' name id h) v = push-IsValid t t' name id v h
Step-IsValid (push_with_parent t name parent h) v = add_scope-IsValid t name parent v h
Step-IsValid (reenter t id h) v = reenter-IsValid t id v h
Step-IsValid (pop t t' id h) v = pop-IsValid t t' id v h
Step-IsValid (clear t id) v = clear-IsValid t id v
Step-IsValid (define_at t t' id sym fits h) v = define-IsValid t t' id sym v fits h
Step-IsValid (define_current t t' sym fits h) v = define_current-IsValid t t' sym v fits h
Step-IsValid (update_proc t t' id name params ret h) v =
    update_procedure-IsValid t t' id name params ret v h
Step-IsValid (export t id name exported) v =
    update-IsValid t id name (λ s. record s { exported = exported }) (λ s h. h) v
Step-IsValid (update t id name f keep) v = update-IsValid t id name f keep v
