-- ===== src/Symtab/Define.antt =====
-- What `define` does, branch by branch, and what is found after it (src/symtab.rs).
use mx.Common.{
  ◌==◌, ℕ, ◌≡◌, ◌≢◌, refl, Bool, false, not, ◌&&◌, ◌||◌, Text, text_eq, Option, none, some, List,
  arith, get_elem?, ok, err, Option-cases, inl, inr, Bool-cases, get_elem?-lt, get_elem?-set_self,
  get_elem?-set_ne, if◌then◌else◌,
}
use mx.Symtab.{Symbol, Scope, SymbolTable}
use mx.Symtab.Names.{done, get, insert, get-insert}
use mx.Symtab.Change.{define, define_in, keep_exported, refuses, is_some, with_symbols}
use mx.Symtab.Search.{lookup_in_scope_direct}

-- Does the scope define the name itself, rather than by an import?
abbrev pub is_local : Option Symbol → Bool
is_local none = false
is_local (some s) = not (is_some s.module_name)

-- The symbol that is written.
unfoldable pub stored : Option Symbol → Symbol → Symbol
stored none sym = sym
stored (some existing) sym = keep_exported existing sym

abbrev pub was_exported : Option Symbol → Bool
was_exported none = false
was_exported (some s) = s.exported

-- The symbol that is written is the given one, but for the flag `exported`, which an earlier export
-- sets.
pub stored_lem :
    (found : Option Symbol) (sym : Symbol)
    → stored found sym ≡ record sym { exported = sym.exported || was_exported found }
unfolding stored keep_exported
stored_lem none sym = ground arith
stored_lem (some s) sym = ground arith

pub stored-kind : (found : Option Symbol) (sym : Symbol) → (stored found sym).kind ≡ sym.kind
unfolding stored keep_exported
stored-kind none sym = refl
stored-kind (some s) sym = ground arith

pub define_in_lem :
    (m : List (Text × Symbol)) (sym : Symbol)
    → define_in m sym ≡ (
        if is_local (get sym.name m)
        then err sym.name
        else ok (insert sym.name (stored (get sym.name m) sym) m))
unfolding define_in refuses stored
define_in_lem m sym = elim (Option-cases (get sym.name m)) [
  | inl e ↦ rw (e, define_in)
  | inr (s, e) ↦ rw (e, define_in) (ground arith)
]

-- define, in a scope that exists, fails exactly when the scope has a symbol of that name that is no
-- import; otherwise it writes the symbol under its name, exported if it or the symbol that it
-- replaces was exported, and changes nothing else.
pub define_lem :
    (t : SymbolTable) (id : ℕ) (sym : Symbol) (scope : Scope)
    → get_elem? t.scopes id ≡ some scope
    → define t id sym
      ≡ done (
          if is_local (get sym.name scope.symbols)
          then err sym.name
          else ok (
              with_symbols t id scope (
                insert sym.name
                  (record sym {
                    exported = sym.exported || was_exported (get sym.name scope.symbols);
                  })
                  scope.symbols)))
unfolding define
define_lem t id sym scope h =
    rw (h, define_in_lem scope.symbols sym, stored_lem (get sym.name scope.symbols) sym)
      (ground arith)

-- A successful define wrote one symbol.
pub define-eq-ok :
    (t t' : SymbolTable) (id : ℕ) (sym : Symbol)
    → define t id sym ≡ done (ok t')
    → (scope : Scope) × (get_elem? t.scopes id ≡ some scope)
      × (t'
          ≡ with_symbols t id scope (
              insert sym.name
                (record sym {
                  exported = sym.exported || was_exported (get sym.name scope.symbols);
                })
                scope.symbols))
define-eq-ok t t' id sym h = elim (Option-cases (get_elem? t.scopes id)) [
  | inl e ↦ unfold define in let bad = rw e at h in cc
  | inr (scope, e) ↦ (scope, e, ground (arith, define_lem t id sym scope e))
]

pub lookup_here :
    (t : SymbolTable) (id : ℕ) (scope : Scope) (name : Text)
    → get_elem? t.scopes id ≡ some scope
    → lookup_in_scope_direct t id name ≡ get name scope.symbols
unfolding lookup_in_scope_direct
lookup_here t id scope name e = rw (e, lookup_in_scope_direct)

pub lookup-with_symbols :
    (t : SymbolTable) (id : ℕ) (scope : Scope) (m : List (Text × Symbol))
    → get_elem? t.scopes id ≡ some scope
    → (j : ℕ) (name : Text)
    → lookup_in_scope_direct (with_symbols t id scope m) j name
      ≡ (if j == id then get name m else lookup_in_scope_direct t j name)
lookup-with_symbols t id scope m e j name =
    let written = record scope { symbols = m } in
    elim (Bool-cases (j == id)) [
      | inl same ↦
          let eq : j ≡ id = ground arith in
          rw same (
            lookup_here (with_symbols t id scope m) j written name
              (rw eq (get_elem?-set_self t.scopes id written (get_elem?-lt t.scopes id e))))
      | inr other ↦
          let ne : id ≢ j = ground arith in
          rw other (
            unfold lookup_in_scope_direct in
            ground (arith, get_elem?-set_ne t.scopes id j written ne))
    ]

-- After define the name stands for the symbol in that scope, and every other name, and every name
-- of another scope, for what it stood for before.
pub lookup-define :
    (t t' : SymbolTable) (id : ℕ) (sym : Symbol)
    → define t id sym ≡ done (ok t')
    → (j : ℕ) (name : Text)
    → lookup_in_scope_direct t' j name ≡ (
        if j == id && text_eq sym.name name
        then some (record sym {
          exported = sym.exported || was_exported (lookup_in_scope_direct t id sym.name);
        })
        else lookup_in_scope_direct t j name)
lookup-define t t' id sym h j name =
    let (scope, e, written) = define-eq-ok t t' id sym h in
    rw
      (
        written,
        lookup-with_symbols t id scope _ e j name,
        get-insert sym.name name,
        lookup_here t id scope sym.name e,
      )
      (elim (Bool-cases (j == id)) [
        | inl same ↦
            let eq : j ≡ id = ground arith in
            let here = lookup_here t j scope name (rw eq e) in ground arith
        | inr other ↦ ground arith
      ])
