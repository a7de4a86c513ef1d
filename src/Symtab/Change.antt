-- ===== src/Symtab/Change.antt =====
-- The methods of `SymbolTable` that change the table (src/symtab.rs).
use mx.Common.{
  ℕ, Bool, true, false, not, ◌&&◌, ◌||◌, Text, codes, Option, none, some, List, [], ◌∷◌, ◌++◌,
  length, get_elem?, set, if◌then◌else◌, Result, ok, err,
}
use mx.Symtab.{Symbol, SymbolKind, procedure, ParamInfo, Scope, SymbolTable}
use mx.Symtab.Names.{Run, done, panic, ◌>>=◌, or_panic, get, insert, modify}

abbrev pub empty_scope : Option ℕ → Text → Scope
empty_scope p n = record { symbols = []; parent = p; name = n }

unfoldable pub new : SymbolTable
new = record { scopes = empty_scope none (codes "<global>") ∷ []; stack = 0 ∷ [] }

-- `*self.scope_stack.last().unwrap()`
unfoldable pub current_scope : SymbolTable → Run ℕ
current_scope t = elim t.stack [ [] ↦ panic | id ∷ rest ↦ done id ]

unfoldable pub push_scope_with_parent : SymbolTable → Text → ℕ → SymbolTable × ℕ
push_scope_with_parent t name parent =
    let id = length t.scopes in
    (record { scopes = t.scopes ++ empty_scope (some parent) name ∷ []; stack = id ∷ t.stack }, id)

unfoldable pub push_scope : SymbolTable → Text → Run (SymbolTable × ℕ)
push_scope t name = do
  parent ← current_scope t
  done (
    record {
      scopes = t.scopes ++ empty_scope (some parent) name ∷ [];
      stack = length t.scopes ∷ t.stack;
    },
    length t.scopes,
  )

unfoldable pub reenter_scope : SymbolTable → ℕ → SymbolTable
reenter_scope t id = record t { stack = id ∷ t.stack }

-- The stack keeps its last element.
abbrev pub popped : List ℕ → List ℕ
popped [] = []
popped (id ∷ []) = id ∷ []
popped (id ∷ top ∷ rest) = top ∷ rest

unfoldable pub pop_scope : SymbolTable → Run (SymbolTable × ℕ)
pop_scope t = do current ← current_scope t; done (record t { stack = popped t.stack }, current)

abbrev pub with_symbols : SymbolTable → ℕ → Scope → List (Text × Symbol) → SymbolTable
with_symbols t id scope m = record t { scopes = set t.scopes id (record scope { symbols = m }) }

unfoldable pub clear_scope : SymbolTable → ℕ → SymbolTable
clear_scope t id = elim (get_elem? t.scopes id) [
  | none ↦ t
  | some scope ↦ with_symbols t id scope []
]

abbrev pub is_some {ℓ} : {A : Type ℓ} → Option A → Bool
is_some none = false
is_some (some a) = true

-- The tests of `define` on the symbol that is there: may the new one take its place?
unfoldable pub refuses : Symbol → Symbol → Bool
refuses existing sym =
    let both_imported = is_some existing.module_name && is_some sym.module_name in
    not both_imported && (not (is_some existing.module_name) || is_some sym.module_name)

-- The flag `exported` survives.
unfoldable pub keep_exported : Symbol → Symbol → Symbol
keep_exported existing sym =
    if existing.exported && not sym.exported then record sym { exported = true } else sym

-- The error is the name of the symbol that is already defined.
unfoldable pub define_in : List (Text × Symbol) → Symbol → Result Text (List (Text × Symbol))
define_in m sym = elim (get sym.name m) [
  | none ↦ ok (insert sym.name sym m)
  | some existing ↦
      if refuses existing sym
      then err sym.name
      else ok (insert sym.name (keep_exported existing sym) m)
]

unfoldable pub define : SymbolTable → ℕ → Symbol → Run (Result Text SymbolTable)
unfolding define_in
define t id sym = do
  scope ← or_panic (get_elem? t.scopes id)
  done
      (elim (define_in scope.symbols sym) [ ok m ↦ ok (with_symbols t id scope m) | err e ↦ err e ])

unfoldable pub define_in_current : SymbolTable → Symbol → Run (Result Text SymbolTable)
define_in_current t sym = do id ← current_scope t; define t id sym

abbrev pub update_kind : List ParamInfo → Option ℕ → SymbolKind → SymbolKind
update_kind params ret (procedure p r b) = procedure params ret b
update_kind params ret other = other

unfoldable pub update_procedure :
    SymbolTable → ℕ → Text → List ParamInfo → Option ℕ → Run SymbolTable
update_procedure t id name params ret = do
  scope ← or_panic (get_elem? t.scopes id)
  done (
      with_symbols t id scope
        (modify name (λ s. record s { kind = update_kind params ret s.kind }) scope.symbols))

unfoldable pub set_exported : SymbolTable → ℕ → Text → Bool → SymbolTable
set_exported t id name exported = elim (get_elem? t.scopes id) [
  | none ↦ t
  | some scope ↦
      with_symbols t id scope (modify name (λ s. record s { exported = exported }) scope.symbols)
]

-- `lookup_in_scope_mut`, with what its caller does to the symbol.
unfoldable pub update_in_scope : SymbolTable → ℕ → Text → (Symbol → Symbol) → SymbolTable
update_in_scope t id name f = elim (get_elem? t.scopes id) [
  | none ↦ t
  | some scope ↦ with_symbols t id scope (modify name f scope.symbols)
]
