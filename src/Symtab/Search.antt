-- ===== src/Symtab/Search.antt =====
-- The methods of `SymbolTable` that look symbols up (src/symtab.rs). The walk along the parents
-- takes fuel: a table whose scopes have earlier parents needs one more than the scope's number.
use mx.Common.{
  ℕ, zero, suc, ◌+◌, Bool, true, false, ◌&&◌, Text, text_eq, Option, none, some, List, [], ◌∷◌, leb,
  length, get_elem?, if◌then◌else◌,
}
use mathlib.Core.List.{reverse}
use mx.Symtab.{Symbol, SymbolKind, type, module_at, Scope, SymbolTable}
use mx.Symtab.Names.{Run, done, out_of_fuel, ◌>>=◌, or_panic, get}
use mx.Symtab.Change.{current_scope}

-- The walk of `lookup_in_scope_with_id`.
unfoldable pub walk : ℕ → List Scope → ℕ → Text → Run (Option (ℕ × Symbol))
walk zero scopes id name = out_of_fuel
walk (suc f) scopes id name = do
  scope ← or_panic (get_elem? scopes id)
  elim (get name scope.symbols) [
    | some sym ↦ done (some (id, sym))
    | none ↦ elim scope.parent [ none ↦ done none | some parent ↦ walk f scopes parent name ]
  ]

unfoldable pub lookup_in_scope_with_id : SymbolTable → ℕ → Text → Run (Option (ℕ × Symbol))
lookup_in_scope_with_id t id name = walk (id + 1) t.scopes id name

abbrev pub symbol_of : Option (ℕ × Symbol) → Option Symbol
symbol_of none = none
symbol_of (some (id, sym)) = some sym

-- The source writes this walk out a second time, without the number.
unfoldable pub walk_symbol : ℕ → List Scope → ℕ → Text → Run (Option Symbol)
walk_symbol zero scopes id name = out_of_fuel
walk_symbol (suc f) scopes id name = do
  scope ← or_panic (get_elem? scopes id)
  elim (get name scope.symbols) [
    | some sym ↦ done (some sym)
    | none ↦ elim scope.parent [ none ↦ done none | some parent ↦ walk_symbol f scopes parent name ]
  ]

unfoldable pub lookup_in_scope : SymbolTable → ℕ → Text → Run (Option Symbol)
lookup_in_scope t id name = walk_symbol (id + 1) t.scopes id name

unfoldable pub lookup : SymbolTable → Text → Run (Option Symbol)
lookup t name = do id ← current_scope t; lookup_in_scope t id name

unfoldable pub lookup_with_scope : SymbolTable → Text → Run (Option (ℕ × Symbol))
lookup_with_scope t name = do id ← current_scope t; lookup_in_scope_with_id t id name

unfoldable pub lookup_in_scope_direct : SymbolTable → ℕ → Text → Option Symbol
lookup_in_scope_direct t id name = elim (get_elem? t.scopes id) [
  | none ↦ none
  | some scope ↦ get name scope.symbols
]

-- The first scope in which a name stands.
unfoldable pub first_with : Text → List Scope → Option Symbol
first_with name [] = none
first_with name (scope ∷ scopes) = elim (get name scope.symbols) [
  | some sym ↦ some sym
  | none ↦ first_with name scopes
]

unfoldable pub lookup_any : SymbolTable → Text → Option Symbol
lookup_any t name = first_with name t.scopes

unfoldable pub lookup_all : SymbolTable → Text → Option Symbol
lookup_all t name = first_with name t.scopes

unfoldable pub lookup_innermost : SymbolTable → Text → Option Symbol
lookup_innermost t name = first_with name (reverse t.scopes)

abbrev is_type : SymbolKind → Bool
is_type type = true
is_type _ = false

-- The first type of that name in the scopes that satisfy a test.
unfoldable pub first_type : (Scope → Bool) → Text → List Scope → Option ℕ
first_type p name [] = none
first_type p name (scope ∷ scopes) =
    let rest = first_type p name scopes in
    elim (get name scope.symbols) [
      | some sym ↦ if p scope && is_type sym.kind then some sym.typ else rest
      | none ↦ rest
    ]

unfoldable pub find_type_in_module : SymbolTable → Text → Text → Option ℕ
find_type_in_module t module_name type_name =
    first_type (λ s. text_eq s.name module_name) type_name t.scopes

unfoldable pub find_type : SymbolTable → Text → Option ℕ
find_type t name = first_type (λ s. true) name t.scopes

abbrev pub scope_of : SymbolKind → Option ℕ
scope_of (module_at id) = some id
scope_of _ = none

-- The scope of the first module symbol of that name.
unfoldable pub module_symbol : Text → List Scope → Option ℕ
module_symbol name [] = none
module_symbol name (scope ∷ scopes) =
    let rest = module_symbol name scopes in
    elim (get name scope.symbols) [
      | some sym ↦ elim (scope_of sym.kind) [ some id ↦ some id | none ↦ rest ]
      | none ↦ rest
    ]

-- The last scope of that name; `id` is the first one's number and `best` what was found before.
unfoldable pub last_named : Text → ℕ → Option ℕ → List Scope → Option ℕ
last_named name id best [] = best
last_named name id best (scope ∷ scopes) =
    last_named name (id + 1) (if text_eq scope.name name then some id else best) scopes

unfoldable pub lookup_module_scope : SymbolTable → Text → Option ℕ
lookup_module_scope t name = elim (module_symbol name t.scopes) [
  | some id ↦ some id
  | none ↦ last_named name 0 none t.scopes
]

-- What the scope of a module exports under a name.
unfoldable pub exported_from : SymbolTable → ℕ → Text → Run (Option (ℕ × Symbol))
exported_from t id name = do
  scope ← or_panic (get_elem? t.scopes id)
  done (elim (get name scope.symbols) [
    | some s ↦ if s.exported then some (id, s) else none
    | none ↦ none
  ])

unfoldable pub lookup_qualified : SymbolTable → Text → Text → Run (Option Symbol)
lookup_qualified t module_name name = elim (module_symbol module_name t.scopes) [
  | some id ↦ (do found ← exported_from t id name; done (symbol_of found))
  | none ↦ done none
]

unfoldable pub lookup_qualified_with_scope : SymbolTable → Text → Text → Run (Option (ℕ × Symbol))
lookup_qualified_with_scope t module_name name = elim (lookup_module_scope t module_name) [
  | some id ↦ exported_from t id name
  | none ↦ done none
]

unfoldable pub scope_count : SymbolTable → ℕ
scope_count t = length t.scopes

unfoldable pub scope_parent : SymbolTable → ℕ → Option ℕ
scope_parent t id = elim (get_elem? t.scopes id) [ none ↦ none | some scope ↦ scope.parent ]

unfoldable pub scope_name : SymbolTable → ℕ → Option Text
scope_name t id = elim (get_elem? t.scopes id) [ none ↦ none | some scope ↦ some scope.name ]

-- `values()` gives the symbols in the order of the entries; the source's order is not specified.
abbrev pub values : List (Text × Symbol) → List Symbol
values [] = []
values ((k, s) ∷ m) = s ∷ values m

unfoldable pub scope_symbols : SymbolTable → ℕ → Run (List Symbol)
scope_symbols t id = do scope ← or_panic (get_elem? t.scopes id); done (values scope.symbols)

-- `sort_by_key` on the types' numbers: the sort is stable.
unfoldable pub insert_by_type : Symbol → List Symbol → List Symbol
insert_by_type s [] = s ∷ []
insert_by_type s (r ∷ rs) = if leb s.typ r.typ then s ∷ r ∷ rs else r ∷ insert_by_type s rs

unfoldable pub sort_by_type : List Symbol → List Symbol
sort_by_type [] = []
sort_by_type (s ∷ ss) = insert_by_type s (sort_by_type ss)

unfoldable pub symbols_in_scope : SymbolTable → ℕ → List Symbol
symbols_in_scope t id = elim (get_elem? t.scopes id) [
  | none ↦ []
  | some scope ↦ sort_by_type (values scope.symbols)
]
