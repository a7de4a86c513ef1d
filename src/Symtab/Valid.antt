-- ===== src/Symtab/Valid.antt =====
-- The invariant of a symbol table: every scope has an earlier parent, every module symbol and every
-- entry of the stack names a scope, and the stack is not empty (src/symtab.rs).
use mathlib.Core.Path.{subst}
use mx.Common.{
  ℕ, zero, suc, ◌≤◌, ◌<◌, ◌≡◌, refl, sym, Text, Option, none, some, List, [], ◌∷◌, ◌++◌, arith,
  length, get_elem?, set, length-append, length-set, ◌⊎◌, inl, inr,
}
use mx.Symtab.{Symbol, Scope, SymbolTable}
use mx.Symtab.Names.{Values}
use mx.Symtab.Search.{scope_of}

abbrev pub Below : ℕ → Option ℕ → Type 0
Below n none = Unit
Below n (some i) = i < n

-- A module symbol names one of `n` scopes.
abbrev pub SymbolFits : ℕ → Symbol → Type 0
SymbolFits n s = Below n (scope_of s.kind)

pub record ScopeFits (n id : ℕ) (scope : Scope) : Type 0 where
  pub earlier : Below id scope.parent
  pub modules : Values (SymbolFits n) scope.symbols

abbrev pub ScopesFit : ℕ → List Scope → Type 0
ScopesFit n scopes =
    (id : ℕ) (scope : Scope) → get_elem? scopes id ≡ some scope → ScopeFits n id scope

abbrev pub AllBelow : ℕ → List ℕ → Type 0
AllBelow n [] = Unit
AllBelow n (i ∷ is) = (i < n) × AllBelow n is

pub record IsValid (t : SymbolTable) : Type 0 where
  pub scopes_fit : ScopesFit (length t.scopes) t.scopes
  pub stack_below : AllBelow (length t.scopes) t.stack
  pub stack_ne : 0 < length t.stack

pub Below-le : (m n : ℕ) (o : Option ℕ) → m ≤ n → Below m o → Below n o
Below-le m n none l h = tt
Below-le m n (some i) l h = omega arith

pub AllBelow-le : (m n : ℕ) (is : List ℕ) → m ≤ n → AllBelow m is → AllBelow n is
AllBelow-le m n [] l h = tt
AllBelow-le m n (i ∷ is) l h = (omega arith, AllBelow-le m n is l h.1)

Values-le :
    (m n : ℕ) (es : List (Text × Symbol))
    → m ≤ n
    → Values (SymbolFits m) es
    → Values (SymbolFits n) es
Values-le m n [] l h = tt
Values-le m n ((k, s) ∷ es) l h = (Below-le m n (scope_of s.kind) l h.0, Values-le m n es l h.1)

ScopeFits-le : (m n id : ℕ) (scope : Scope) → m ≤ n → ScopeFits m id scope → ScopeFits n id scope
ScopeFits-le m n id scope l h = record {
  earlier = h.earlier;
  modules = Values-le m n scope.symbols l h.modules;
}

get_elem?-concat_cases :
    {A : Type 0} (xs : List A) (x : A) (i : ℕ) {y : A}
    → get_elem? (xs ++ x ∷ []) i ≡ some y
    → (get_elem? xs i ≡ some y) ⊎ ((i ≡ length xs) × (x ≡ y))
get_elem?-concat_cases [] x zero h = inr (refl, cc)
get_elem?-concat_cases [] x (suc i) h = inl h
get_elem?-concat_cases (z ∷ xs) x zero h = inl h
get_elem?-concat_cases (z ∷ xs) x (suc i) h = ground (arith, get_elem?-concat_cases xs x i h)

get_elem?-set_cases :
    {A : Type 0} (xs : List A) (i j : ℕ) (v : A) {y : A}
    → get_elem? (set xs i v) j ≡ some y
    → (get_elem? xs j ≡ some y) ⊎ ((j ≡ i) × (v ≡ y))
get_elem?-set_cases [] i j v h = inl h
get_elem?-set_cases (x ∷ xs) zero zero v h = inr (refl, cc)
get_elem?-set_cases (x ∷ xs) zero (suc j) v h = inl h
get_elem?-set_cases (x ∷ xs) (suc i) zero v h = inl h
get_elem?-set_cases (x ∷ xs) (suc i) (suc j) v h = ground (arith, get_elem?-set_cases xs i j v h)

-- A scope more, with an earlier parent and no symbols.
pub ScopesFit-concat :
    (scopes : List Scope) (scope : Scope)
    → ScopesFit (length scopes) scopes
    → ScopeFits (length (scopes ++ scope ∷ [])) (length scopes) scope
    → ScopesFit (length (scopes ++ scope ∷ [])) (scopes ++ scope ∷ [])
ScopesFit-concat scopes scope h new id found e = elim (get_elem?-concat_cases scopes scope id e) [
  | inl old ↦
      ScopeFits-le (length scopes) (length (scopes ++ scope ∷ [])) id found
        (omega (arith, length-append scopes (scope ∷ []))) (h id found old)
  | inr last ↦
      subst (λ i. ScopeFits (length (scopes ++ scope ∷ [])) i found) (sym last.0)
        (subst (ScopeFits _ (length scopes)) last.1 new)
]

-- Other symbols in a scope.
pub ScopesFit-set :
    (scopes : List Scope) (id : ℕ) (scope : Scope)
    → ScopesFit (length scopes) scopes
    → ScopeFits (length scopes) id scope
    → ScopesFit (length (set scopes id scope)) (set scopes id scope)
ScopesFit-set scopes id scope h new j found e =
    rw (length-set scopes id scope) (elim (get_elem?-set_cases scopes id j scope e) [
      | inl old ↦ h j found old
      | inr here ↦
          subst (λ i. ScopeFits (length scopes) i found) (sym here.0)
            (subst (ScopeFits (length scopes) id) here.1 new)
    ])
