-- ===== src/Symtab/Resolve.antt =====
-- Looking a name up along the scopes' parents, against the relation that it decides
-- (src/symtab.rs).
use mathlib.Core.Path.{subst}
use mx.Common.{
  some_inj, ℕ, zero, suc, ◌+◌, ◌<◌, ◌≡◌, ◌↔◌, sym, ◌∙◌, Text, Option, none, some, List, arith,
  length, get_elem?, Option-cases, inl, inr, get_elem?-some,
}
use mx.Symtab.{Symbol, Scope, SymbolTable}
use mx.Symtab.Names.{done, get}
use mx.Symtab.Search.{walk, lookup_in_scope_with_id}
use mx.Symtab.Valid.{IsValid, ScopesFit, Below}
use mx.Common.Runs.{done_inj}

-- `name`, seen from the scope `id`, is the symbol `s` of the scope `d`: the scope's own symbol, or,
-- where it has none of that name, what its parent sees.
pub data Visible (scopes : List Scope) (name : Text) : ℕ → ℕ → Symbol → Type 0 where
  own :
      (id : ℕ) (scope : Scope) (s : Symbol)
      → get_elem? scopes id ≡ some scope
      → get name scope.symbols ≡ some s
      → Visible scopes name id id s
  inherited :
      (id parent d : ℕ) (scope : Scope) (s : Symbol)
      → get_elem? scopes id ≡ some scope
      → get name scope.symbols ≡ none
      → scope.parent ≡ some parent
      → Visible scopes name parent d s
      → Visible scopes name id d s

-- One round of the walk.
walk_own :
    (f : ℕ) (scopes : List Scope) (id : ℕ) (name : Text) (scope : Scope) (s : Symbol)
    → get_elem? scopes id ≡ some scope
    → get name scope.symbols ≡ some s
    → walk (suc f) scopes id name ≡ done (some (id, s))
unfolding walk
walk_own f scopes id name scope s e g = ground arith

walk_parent :
    (f : ℕ) (scopes : List Scope) (id parent : ℕ) (name : Text) (scope : Scope)
    → get_elem? scopes id ≡ some scope
    → get name scope.symbols ≡ none
    → scope.parent ≡ some parent
    → walk (suc f) scopes id name ≡ walk f scopes parent name
unfolding walk
walk_parent f scopes id parent name scope e g p = ground arith

walk_root :
    (f : ℕ) (scopes : List Scope) (id : ℕ) (name : Text) (scope : Scope)
    → get_elem? scopes id ≡ some scope
    → get name scope.symbols ≡ none
    → scope.parent ≡ none
    → walk (suc f) scopes id name ≡ done none
unfolding walk
walk_root f scopes id name scope e g p = ground arith

module _ (scopes : List Scope) (fits : ScopesFit (length scopes) scopes) (name : Text) where
  parent-lt :
      (id parent : ℕ) (scope : Scope)
      → get_elem? scopes id ≡ some scope
      → scope.parent ≡ some parent
      → parent < id
  parent-lt id parent scope e p = subst (Below id) p (fits id scope e).earlier

  walk_complete :
      (f : ℕ) {id d : ℕ} {s : Symbol}
      → id < f
      → Visible scopes name id d s
      → walk f scopes id name ≡ done (some (d, s))
  walk_complete zero l v = absurd (omega arith)
  walk_complete (suc f) l (own id scope s e g) = walk_own f scopes id name scope s e g
  walk_complete (suc f) l (inherited id parent d scope s e g p v) =
      walk_parent f scopes id parent name scope e g p
      ∙ walk_complete f (omega (arith, parent-lt id parent scope e p)) v

  found_own :
      (id d : ℕ) (scope : Scope) (s r : Symbol)
      → get_elem? scopes id ≡ some scope
      → get name scope.symbols ≡ some s
      → ◌≡◌ {A = Option (ℕ × Symbol)} (some (id, s)) (some (d, r))
      → Visible scopes name id d r
  found_own id d scope s r e g h =
      let same : ◌≡◌ {A = ℕ × Symbol} (id, s) (d, r) = some_inj h in
      subst (λ (p : ℕ × Symbol). Visible scopes name id p.0 p.1) same (own id scope s e g)

  -- The walk ends, and what it finds is visible.
  walk_sound :
      (f id : ℕ)
      → id < f
      → id < length scopes
      → (r : Option (ℕ × Symbol)) × (walk f scopes id name ≡ done r)
        × ((d : ℕ) (s : Symbol) → r ≡ some (d, s) → Visible scopes name id d s)
  walk_sound zero id l b = absurd (omega arith)
  walk_sound (suc f) id l b =
      let (scope, e) = get_elem?-some scopes id b in
      elim (Option-cases (get name scope.symbols)) [
        | inr (s, g) ↦ (
          some (id, s),
          walk_own f scopes id name scope s e g,
          λ d r h. found_own id d scope s r e g h,
        )
        | inl g ↦ elim (Option-cases scope.parent) [
          | inl p ↦ (none, walk_root f scopes id name scope e g p, λ d r h. cc)
          | inr (parent, p) ↦
              let below = parent-lt id parent scope e p in
              let (r, w, h) = walk_sound f parent (omega arith) (omega arith) in
              (
                r,
                walk_parent f scopes id parent name scope e g p ∙ w,
                λ d s q. inherited id parent d scope s e g p (h d s q),
              )
        ]
      ]

-- In a valid table the search from an existing scope ends without a panic, and it finds a symbol
-- exactly where the relation Visible has one: the nearest along the parents.
pub lookup_in_scope_with_id_iff :
    (t : SymbolTable) (id : ℕ) (name : Text)
    → IsValid t
    → id < length t.scopes
    → ((r : Option (ℕ × Symbol)) × (lookup_in_scope_with_id t id name ≡ done r))
      × ((d : ℕ) (s : Symbol)
          → (lookup_in_scope_with_id t id name ≡ done (some (d, s))) ↔ Visible t.scopes name id d s)
unfolding lookup_in_scope_with_id
lookup_in_scope_with_id_iff t id name v b =
    let (r, w, h) = walk_sound t.scopes v.scopes_fit name (id + 1) id (omega arith) b in
    (
      (r, w),
      λ d s. (
        λ e. h d s (done_inj (sym w ∙ e)),
        λ vis. walk_complete t.scopes v.scopes_fit name (id + 1) (omega arith) vis,
      ),
    )
