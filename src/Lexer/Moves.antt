-- ===== src/Lexer/Moves.antt =====
-- The position of the lexer is that of what it has read (src/lexer.rs).
use mx.Common.{
  ◌≢◌, ◌≤◌, length-append, ℕ, ◌+◌, ◌==◌, ◌≡◌, refl, sym, ◌∙◌, ap, Text, [], ◌∷◌, ◌++◌, append_assoc,
  length, Bool, true, false, Bool-cases, inl, inr, if◌then◌else◌, Result, ok, err, ◌>>=◌, arith,
}
use mx.Lexer.{out_of_fuel, Lexer, Position, LexError, step, advance}

-- The newlines of a text, and the column after it, where it starts in column `col`.
abbrev pub newlines : Text → ℕ
newlines [] = 0
newlines (c ∷ cs) = (if c == b'\n' then 1 else 0) + newlines cs

abbrev pub column_after : ℕ → Text → ℕ
column_after col [] = col
column_after col (c ∷ cs) = column_after (if c == b'\n' then 1 else col + 1) cs

-- From one state the lexer comes to another by reading a text.
pub record Reads (from to : Lexer) : Type 0 where
  pub used : Text
  pub split : from.rest ≡ used ++ to.rest
  pub line : to.position.line ≡ from.position.line + newlines used
  pub col : to.position.col ≡ column_after from.position.col used

pub Reads-nothing : (lx : Lexer) → Reads lx lx
Reads-nothing lx = record { used = []; split = refl; line = omega arith; col = refl }

col_step :
    (c : ℕ) (at : Position) (used : Text)
    → column_after (step c at).col used ≡ column_after at.col (c ∷ used)
col_step c at used = elim (Bool-cases (c == b'\n')) [ inl e ↦ rw e refl | inr e ↦ rw e refl ]

newlines-append : (a b : Text) → newlines (a ++ b) ≡ newlines a + newlines b
newlines-append [] b = omega arith
newlines-append (c ∷ cs) b = omega (arith, newlines-append cs b)

column_after-append :
    (col : ℕ) (a b : Text) → column_after col (a ++ b) ≡ column_after (column_after col a) b
column_after-append col [] b = refl
column_after-append col (c ∷ cs) b = column_after-append (if c == b'\n' then 1 else col + 1) cs b

pub Reads-step :
    (c : ℕ) (cs : Text) (at : Position) (to : Lexer)
    → Reads (record { rest = cs; position = step c at }) to
    → Reads (record { rest = c ∷ cs; position = at }) to
Reads-step c cs at to r = record {
  used = c ∷ r.used;
  split = ap (λ t. c ∷ t) r.split;
  line = ground arith;
  col = r.col ∙ col_step c at r.used;
}

pub Reads-trans : {a b c : Lexer} → Reads a b → Reads b c → Reads a c
Reads-trans {a} {b} {c} p q = record {
  used = p.used ++ q.used;
  split = p.split ∙ ap (λ t. p.used ++ t) q.split ∙ sym (append_assoc p.used q.used c.rest);
  line = omega (arith, q.line, p.line, newlines-append p.used q.used);
  col =
      q.col
      ∙ ap (λ n. column_after n q.used) p.col
      ∙ sym (column_after-append a.position.col p.used q.used);
}

Reads-advance_text :
    (t : Text) (at : Position)
    → Reads (record { rest = t; position = at }) (advance (record { rest = t; position = at }))
unfolding advance
Reads-advance_text [] at = Reads-nothing (record { rest = []; position = at })
Reads-advance_text (c ∷ cs) at =
    let next : Lexer = record { rest = cs; position = step c at } in
    Reads-step c cs at next (Reads-nothing next)

pub Reads-advance : (lx : Lexer) → Reads lx (advance lx)
Reads-advance lx = Reads-advance_text lx.rest lx.position

pub length-Reads : {a b : Lexer} → Reads a b → length b.rest ≤ length a.rest
length-Reads {a} {b} r = omega (arith, ap length r.split, length-append r.used b.rest)

-- A result that is an error other than used up fuel, or stands where the lexer has read to.
pub data Arrives {A : Type 0} (at : A → Lexer) (from : Lexer) : Result LexError A → Type 0 where
  arrives : (a : A) → Reads from (at a) → Arrives at from (ok a)
  refused : (e : LexError) → e.message ≢ out_of_fuel → Arrives at from (err e)

pub Arrives-after :
    {A : Type 0} {at : A → Lexer} {a b : Lexer} {r : Result LexError A}
    → Reads a b
    → Arrives at b r
    → Arrives at a r
Arrives-after p (arrives x q) = arrives x (Reads-trans p q)
Arrives-after p (refused e w) = refused e w

pub Arrives-bind-Reads :
    {A B : Type 0} {at : A → Lexer} {at' : B → Lexer} {from : Lexer} {r : Result LexError A}
    (next : A → Result LexError B)
    → Arrives at from r
    → ((a : A) → Reads from (at a) → Arrives at' (at a) (next a))
    → Arrives at' from (r >>= next)
Arrives-bind-Reads next (arrives x q) h = Arrives-after q (h x q)
Arrives-bind-Reads next (refused e w) h = refused e w

pub Arrives-bind :
    {A B : Type 0} {at : A → Lexer} {at' : B → Lexer} {from : Lexer} {r : Result LexError A}
    (next : A → Result LexError B)
    → Arrives at from r
    → ((a : A) → Arrives at' (at a) (next a))
    → Arrives at' from (r >>= next)
Arrives-bind next p h = Arrives-bind-Reads next p (λ a q. h a)

pub Arrives-choice :
    {A : Type 0} {at : A → Lexer} {from : Lexer} {r r' : Result LexError A} (b : Bool)
    → Arrives at from r
    → Arrives at from r'
    → Arrives at from (elim b [ true ↦ r | false ↦ r' ])
Arrives-choice true p q = p
Arrives-choice false p q = q

pub Arrives-if :
    {A : Type 0} {at : A → Lexer} {from : Lexer} {r r' : Result LexError A} (b : Bool)
    → Arrives at from r
    → Arrives at from r'
    → Arrives at from (if b then r else r')
Arrives-if true p q = p
Arrives-if false p q = q
