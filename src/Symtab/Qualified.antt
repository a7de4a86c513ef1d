-- ===== src/Symtab/Qualified.antt =====
-- The second writing of the walk, and qualified names (src/symtab.rs).
use mathlib.Core.Path.{subst}
use mx.Common.{
  if◌then◌else◌, ℕ, zero, suc, ◌+◌, ◌<◌, ◌≡◌, refl, Text, Option, none, some, List, [], ◌∷◌, arith,
  length, get_elem?, get_elem?-some, Option-cases, inl, inr,
}
use mx.Symtab.{Symbol, Scope, SymbolTable}
use mx.Symtab.Names.{Run, done, panic, out_of_fuel, ◌>>=◌, get, Values, Values-get}
use mx.Symtab.Search.{
  walk, walk_symbol, lookup_in_scope, lookup_in_scope_with_id, symbol_of, lookup, lookup_with_scope,
  lookup_qualified, lookup_qualified_with_scope, lookup_module_scope, module_symbol, exported_from,
  scope_of, lookup_in_scope_direct,
}
use mx.Symtab.Change.{current_scope}
use mx.Symtab.Valid.{IsValid, SymbolFits, Below}

walk_symbol_lem :
    (f : ℕ) (scopes : List Scope) (id : ℕ) (name : Text)
    → walk_symbol f scopes id name ≡ (walk f scopes id name >>= λ r. done (symbol_of r))
unfolding walk walk_symbol
walk_symbol_lem zero scopes id name = refl
walk_symbol_lem (suc f) scopes id name = elim (Option-cases (get_elem? scopes id)) [
  | inl e ↦ ground arith
  | inr (scope, e) ↦ elim (Option-cases (get name scope.symbols)) [
    | inr (s, g) ↦ ground arith
    | inl g ↦ elim (Option-cases scope.parent) [
      | inl p ↦ ground arith
      | inr (parent, p) ↦ ground (arith, walk_symbol_lem f scopes parent name)
    ]
  ]
]

-- lookup finds the symbol that lookup_with_scope finds, panics included.
pub lookup-lookup_with_scope :
    (t : SymbolTable) (name : Text)
    → lookup t name ≡ (lookup_with_scope t name >>= λ r. done (symbol_of r))
unfolding lookup lookup_with_scope lookup_in_scope lookup_in_scope_with_id
lookup-lookup_with_scope t name = top (current_scope t)
  where
    top :
        (m : Run ℕ)
        → (m >>= λ id. walk_symbol (id + 1) t.scopes id name)
          ≡ (m >>= (λ id. walk (id + 1) t.scopes id name) >>= λ r. done (symbol_of r))
    top (done id) = walk_symbol_lem (id + 1) t.scopes id name
    top panic = refl
    top out_of_fuel = refl

module_symbol-lt :
    (n : ℕ) (name : Text) (scopes : List Scope) {id : ℕ}
    → ((i : ℕ) (scope : Scope)
        → get_elem? scopes i ≡ some scope
        → Values (SymbolFits n) scope.symbols)
    → module_symbol name scopes ≡ some id
    → id < n
unfolding module_symbol
module_symbol-lt n name [] h e = cc
module_symbol-lt n name (scope ∷ scopes) h e = elim (Option-cases (get name scope.symbols)) [
  | inl g ↦ module_symbol-lt n name scopes (λ i. h (suc i)) (ground arith)
  | inr (s, g) ↦ elim (Option-cases (scope_of s.kind)) [
    | inl k ↦ module_symbol-lt n name scopes (λ i. h (suc i)) (ground arith)
    | inr (i, k) ↦
        let below : i < n =
          subst (Below n) k (Values-get (SymbolFits n) name scope.symbols (h 0 scope refl) g) in
        ground arith
  ]
]

-- The symbol, if it is exported.
abbrev pub exported_only : Option Symbol → Option Symbol
exported_only none = none
exported_only (some s) = if s.exported then some s else none

abbrev pub in_scope : ℕ → Option Symbol → Option (ℕ × Symbol)
in_scope id none = none
in_scope id (some s) = some (id, s)

exported_from_lem :
    (t : SymbolTable) (id : ℕ) (name : Text)
    → id < length t.scopes
    → exported_from t id name
      ≡ done (in_scope id (exported_only (lookup_in_scope_direct t id name)))
unfolding exported_from lookup_in_scope_direct
exported_from_lem t id name b =
    let (scope, e) = get_elem?-some t.scopes id b in
    elim (Option-cases (get name scope.symbols)) [
      | inl g ↦ ground arith
      | inr (s, g) ↦ ground arith
    ]

-- In a valid table, where a module symbol of the name stands, a qualified name is looked up in the
-- scope of the first one, without a panic; it finds a symbol of that scope itself if that is
-- exported, and else nothing. Both lookups agree.
pub lookup_qualified_lem :
    (t : SymbolTable) (module_name name : Text) (id : ℕ)
    → IsValid t
    → module_symbol module_name t.scopes ≡ some id
    → (lookup_qualified t module_name name
        ≡ done (exported_only (lookup_in_scope_direct t id name)))
      × (lookup_qualified_with_scope t module_name name
          ≡ done (in_scope id (exported_only (lookup_in_scope_direct t id name))))
unfolding lookup_qualified lookup_qualified_with_scope lookup_module_scope
lookup_qualified_lem t module_name name id v e =
    let below =
      module_symbol-lt (length t.scopes) module_name t.scopes
        (λ i scope h. (v.scopes_fit i scope h).modules) e in
    let found = exported_from_lem t id name below in (ground (arith, found), ground (arith, found))
