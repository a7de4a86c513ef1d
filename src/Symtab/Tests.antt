-- ===== src/Symtab/Tests.antt =====
-- Runs on a table with an imported symbol, a local one and a nested procedure scope.
use mx.Common.{
  ℕ, ◌≡◌, refl, ◌↔◌, Bool, true, false, ◌||◌, ◌&&◌, Text, text_eq, codes, Option, none, some, List,
  inl, length, [], ◌∷◌, arith, ok, err, ◌==◌, if◌then◌else◌,
}
use mx.Symtab.{SourceLoc, Symbol, SymbolKind, variable, module_at, Scope, SymbolTable}
use mx.Symtab.Names.{◌>>=◌, done, get, insert}
use mx.Symtab.Change.{
  new, reenter_scope, current_scope, push_scope, define, define_in, refuses, keep_exported,
  with_symbols, push_scope_with_parent,
}
use mx.Symtab.Define.{define_lem, lookup-define, is_local, was_exported}
use mx.Symtab.Calls.{
  Calls, Among, ScopeAmong, created, pushed, pushed_under, reentered, defined, Calls-IsValid,
}
use mx.Symtab.Qualified.{lookup-lookup_with_scope, lookup_qualified_lem, exported_only, in_scope}
use mx.Symtab.Resolve.{Visible, lookup_in_scope_with_id_iff}
use mx.Symtab.Search.{
  lookup_in_scope_direct, lookup_in_scope_with_id, lookup_qualified, lookup_qualified_with_scope,
  lookup, lookup_with_scope, symbol_of, walk, module_symbol,
}
use mx.Symtab.Valid.{IsValid, AllBelow}

abbrev loc : SourceLoc
loc = record { file = codes "a.mod"; line = 1; col = 1 }

abbrev symbol : Text → SymbolKind → Bool → Option Text → Symbol
symbol n k e m = record {
  name = n;
  kind = k;
  typ = 0;
  exported = e;
  module_name = m;
  loc = loc;
  doc = none;
  is_var_param = false;
  is_open_array = false;
}

abbrev imported_x : Symbol
imported_x = symbol (codes "x") variable true (some (codes "M"))

abbrev local_x : Symbol
local_x = symbol (codes "x") variable false none

abbrev module_m : Symbol
module_m = symbol (codes "M") (module_at 0) false none

abbrev global : List (Text × Symbol) → Scope
global m = record { symbols = m; parent = none; name = codes "<global>" }

-- The global scope with an import of x and with the module M.
abbrev table : SymbolTable
table = record {
  scopes = global ((codes "x", imported_x) ∷ (codes "M", module_m) ∷ []) ∷ [];
  stack = 0 ∷ [];
}

-- The same, with the scope of a procedure in it.
abbrev nested : SymbolTable
nested = (push_scope_with_parent table (codes "P") 0).0

abbrev with_imported : SymbolTable
with_imported = record { scopes = global ((codes "x", imported_x) ∷ []) ∷ []; stack = 0 ∷ [] }

imported-made : define new 0 imported_x ≡ done (ok with_imported)
imported-made = unfold new define get insert in refl

table-made : define with_imported 0 module_m ≡ done (ok table)
table-made = unfold define get insert text_eq in refl

table-Calls : Calls table (0 ∷ [])
unfolding ScopeAmong Among
table-Calls =
    defined table 0 module_m (defined with_imported 0 imported_x created tt imported-made)
      (inl refl) table-made

table-IsValid : IsValid table
table-IsValid = (Calls-IsValid table-Calls).0

-- Two definitions, a scope under the global one, and a return to that scope by its number.
reentered-made :
    Calls
      (reenter_scope nested (push_scope_with_parent table (codes "P") 0).1)
      ((push_scope_with_parent table (codes "P") 0).1 ∷ 0 ∷ [])
unfolding Among ScopeAmong
reentered-made =
    reentered (push_scope_with_parent table (codes "P") 0).1
      (pushed_under (codes "P") 0 table-Calls (inl refl)) (inl refl)

Calls-IsValid_example :
    IsValid (reenter_scope nested (push_scope_with_parent table (codes "P") 0).1)
    × AllBelow
        (length (reenter_scope nested (push_scope_with_parent table (codes "P") 0).1).scopes)
        ((push_scope_with_parent table (codes "P") 0).1 ∷ 0 ∷ [])
Calls-IsValid_example = Calls-IsValid reentered-made

define_lem_example :
    define table 0 local_x
    ≡ done (
        if is_local
          (get (codes "x") (global ((codes "x", imported_x) ∷ (codes "M", module_m) ∷ [])).symbols)
        then err (codes "x")
        else ok (
            with_symbols table 0 (global ((codes "x", imported_x) ∷ (codes "M", module_m) ∷ [])) (
              insert
                (codes "x")
                (record local_x {
                  exported =
                      false
                      || was_exported
                          (get (codes "x") ((codes "x", imported_x) ∷ (codes "M", module_m) ∷ []));
                })
                ((codes "x", imported_x) ∷ (codes "M", module_m) ∷ []))))
define_lem_example = define_lem table 0 local_x _ refl

-- The local x takes the place of the import, and stays exported.
abbrev redefined : SymbolTable
redefined = record table {
  scopes =
      global ((codes "x", record local_x { exported = true }) ∷ (codes "M", module_m) ∷ []) ∷ [];
}

redefined-made : define table 0 local_x ≡ done (ok redefined)
unfolding define define_in refuses keep_exported get insert text_eq
redefined-made = refl

define_twice : define redefined 0 local_x ≡ done (err (codes "x"))
unfolding define define_in refuses keep_exported get insert text_eq
define_twice = refl

lookup-define_example : lookup_in_scope_direct redefined 0 (codes "M") ≡ (
    if 0 == 0 && text_eq (codes "x") (codes "M")
    then some (record local_x {
      exported = false || was_exported (lookup_in_scope_direct table 0 (codes "x"));
    })
    else lookup_in_scope_direct table 0 (codes "M"))
lookup-define_example = lookup-define table redefined 0 local_x redefined-made 0 (codes "M")

nested-IsValid : IsValid nested
nested-IsValid = (Calls-IsValid (pushed nested (codes "P") 1 table-Calls nested-made)).0
  where
    nested-made : push_scope table (codes "P") ≡ done (nested, 1)
    nested-made = unfold push_scope current_scope push_scope_with_parent in refl

lookup_in_scope_with_id_iff_example :
    ((r : Option (ℕ × Symbol)) × (lookup_in_scope_with_id nested 1 (codes "x") ≡ done r))
    × ((d : ℕ) (s : Symbol)
        → (lookup_in_scope_with_id nested 1 (codes "x") ≡ done (some (d, s)))
          ↔ Visible nested.scopes (codes "x") 1 d s)
lookup_in_scope_with_id_iff_example =
    lookup_in_scope_with_id_iff nested 1 (codes "x") nested-IsValid
      (unfold push_scope_with_parent in omega arith)

lookup-lookup_with_scope_example :
    lookup nested (codes "x") ≡ (lookup_with_scope nested (codes "x") >>= λ r. done (symbol_of r))
lookup-lookup_with_scope_example = lookup-lookup_with_scope nested (codes "x")

-- The procedure's scope does not have x, the global one does.
found_in_global : lookup_in_scope_with_id nested 1 (codes "x") ≡ done (some (0, imported_x))
unfolding lookup_in_scope_with_id walk get text_eq push_scope_with_parent
found_in_global = refl

lookup_qualified_lem_example :
    (lookup_qualified table (codes "M") (codes "x")
      ≡ done (exported_only (lookup_in_scope_direct table 0 (codes "x"))))
    × (lookup_qualified_with_scope table (codes "M") (codes "x")
        ≡ done (in_scope 0 (exported_only (lookup_in_scope_direct table 0 (codes "x")))))
lookup_qualified_lem_example =
    lookup_qualified_lem table (codes "M") (codes "x") 0 table-IsValid
      (unfold module_symbol get text_eq in refl)
