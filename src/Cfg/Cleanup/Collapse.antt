-- ===== src/Cfg/Cleanup/Collapse.antt =====
-- The rounds of `collapse_trivial_gotos` (src/cfg/mod.rs): a block that is skipped once is skipped in every round.
use mx.Common.{
  ℕ, zero, suc, ◌≡◌, ◌≢◌, refl, sym, ap, ◌∙◌, Bool, Bool-cases, true, false, not, ltb, ◌||◌, ◌==◌,
  ==_iff, if◌then◌else◌, Option, none, some, some_inj, List, [], ◌∷◌, ◌++◌, map, length, get_elem?,
  ◌⊎◌, inl, inr,
}
use mathlib.Core.Path.{subst}
use mx.Cfg.{
  Terminator, goto, branch, switch, SwitchArm, return, raise, BasicBlock, Cfg, successors, contains,
  is_some, is_empty, block_successors, replaced, replace_arms, replace_target,
}
use mx.Hir.{HirStmt}
use mx.Cfg.Cleanup.{replace_handler, goto_target, trivial_target, replace_option, redirect}

abbrev pub AllNot : ℕ → List ℕ → Type 0
AllNot i [] = Unit
AllNot i (t ∷ ts) = (t ≢ i) × AllNot i ts

pub true-false : ¬ (true ≡ false)
true-false e = cc

pub if-false : {A : Type 0} (b : Bool) (x y : A) → b ≡ false → (if b then x else y) ≡ y
if-false true x y h = cc
if-false false x y h = refl

if-true : {A : Type 0} (b : Bool) (x y : A) → b ≡ true → (if b then x else y) ≡ x
if-true true x y h = refl
if-true false x y h = cc

-- References to `old` become `new`, so none is to `i` if `i` is `old` or there was none.
replaced-ne : (i old new t : ℕ) → new ≢ i → ((old ≡ i) ⊎ (t ≢ i)) → replaced old new t ≢ i
replaced-ne i old new t n m = elim (Bool-cases (t == old)) [
  | inl e ↦ subst (λ z. z ≢ i) (sym (if-true (t == old) new t e)) n
  | inr e ↦
      subst (λ z. z ≢ i) (sym (if-false (t == old) new t e))
        (elim m [
          | inl is ↦ λ at. true-false (sym ((==_iff t old).1 (at ∙ sym is)) ∙ e)
          | inr k ↦ k
        ])
]

pub if_none :
    {A : Type 0} (b : Bool) (o : Option A) (t : A)
    → (if b then none else o) ≡ some t
    → (b ≡ false) × (o ≡ some t)
if_none true o t h = cc
if_none false o t h = (refl, h)

or_false : (a b : Bool) → (a || b) ≡ false → (a ≡ false) × (b ≡ false)
or_false true b h = cc
or_false false b h = (refl, h)

is_some-replace_handler :
    (old new : ℕ) (h : Option ℕ) → is_some h ≡ false → is_some (replace_handler old new h) ≡ false
is_some-replace_handler old new none e = refl
is_some-replace_handler old new (some h) e = cc

module _ {F : Type 0} where
  tail-AllNot :
      (i old new : ℕ) (arms : List (SwitchArm F)) (d : ℕ)
      → new ≢ i
      → ((old ≡ i) ⊎ AllNot i (map (λ arm. arm.target) arms ++ d ∷ []))
      → AllNot i (map (λ arm. arm.target) (replace_arms old new arms) ++ replaced old new d ∷ [])
  unfolding replace_arms
  tail-AllNot i old new [] d n h =
      (replaced-ne i old new d n (elim h [ inl e ↦ inl e | inr k ↦ inr k.0 ]), tt)
  tail-AllNot i old new (arm ∷ arms) d n h = (
    replaced-ne i old new arm.target n (elim h [ inl e ↦ inl e | inr k ↦ inr k.0 ]),
    tail-AllNot i old new arms d n (elim h [ inl e ↦ inl e | inr k ↦ inr k.1 ]),
  )

  replace_target-AllNot :
      (i old new : ℕ) (t : Terminator F)
      → new ≢ i
      → ((old ≡ i) ⊎ AllNot i (successors t))
      → AllNot i (successors (replace_target old new t))
  unfolding replace_target successors
  replace_target-AllNot i old new (goto b) n h =
      (replaced-ne i old new b n (elim h [ inl e ↦ inl e | inr k ↦ inr k.0 ]), tt)
  replace_target-AllNot i old new (branch c t f) n h = (
    replaced-ne i old new t n (elim h [ inl e ↦ inl e | inr k ↦ inr k.0 ]),
    (replaced-ne i old new f n (elim h [ inl e ↦ inl e | inr k ↦ inr k.1.0 ]), tt),
  )
  replace_target-AllNot i old new (switch e arms d) n h = tail-AllNot i old new arms d n h
  replace_target-AllNot i old new (return e) n h = tt
  replace_target-AllNot i old new (raise e) n h = tt

  abbrev redirected : ℕ → ℕ → BasicBlock F → BasicBlock F
  redirected old new block = record block {
    terminator = replace_option old new block.terminator;
    handler = replace_handler old new block.handler;
  }

  redirected-AllNot :
      (i old new : ℕ) (t : Option (Terminator F))
      → new ≢ i
      → ((old ≡ i) ⊎ AllNot i (block_successors t))
      → AllNot i (block_successors (replace_option old new t))
  redirected-AllNot i old new none n h = tt
  redirected-AllNot i old new (some t) n h = replace_target-AllNot i old new t n h

  get_elem?-redirect :
      (old new j : ℕ) (bs : List (BasicBlock F)) (b : BasicBlock F)
      → get_elem? bs j ≡ some b
      → get_elem? (redirect old new bs) j ≡ some (redirected old new b)
  unfolding redirect
  get_elem?-redirect old new j [] b e = cc
  get_elem?-redirect old new zero (x ∷ bs) b e = ap (λ z. some (redirected old new z)) (some_inj e)
  get_elem?-redirect old new (suc j) (x ∷ bs) b e = get_elem?-redirect old new j bs b e

  redirect-found :
      (old new j : ℕ) (bs : List (BasicBlock F)) (b : BasicBlock F)
      → get_elem? (redirect old new bs) j ≡ some b
      → (x : BasicBlock F) × ((get_elem? bs j ≡ some x) × (redirected old new x ≡ b))
  unfolding redirect
  redirect-found old new j [] b e = cc
  redirect-found old new zero (x ∷ bs) b e = (x, (refl, some_inj e))
  redirect-found old new (suc j) (x ∷ bs) b e = redirect-found old new j bs b e

  length-redirect :
      (old new : ℕ) (bs : List (BasicBlock F)) → length (redirect old new bs) ≡ length bs
  unfolding redirect
  length-redirect old new [] = refl
  length-redirect old new (x ∷ bs) = ap suc (length-redirect old new bs)

  pub goto_target-some :
      (i t : ℕ) (term : Option (Terminator F))
      → goto_target i term ≡ some t
      → (term ≡ some (goto t)) × (t ≢ i)
  goto_target-some i t none h = cc
  goto_target-some i t (some (goto b)) h =
      let (ne, is) = if_none (b == i) (some b) t h in
      (
        ap (λ z. some (goto z)) (some_inj is),
        λ e. true-false (sym ((==_iff b i).1 (some_inj is ∙ e)) ∙ ne),
      )
  goto_target-some i t (some (branch c x y)) h = cc
  goto_target-some i t (some (switch e arms d)) h = cc
  goto_target-some i t (some (return e)) h = cc
  goto_target-some i t (some (raise e)) h = cc

  not-is_empty : (ss : List (HirStmt F)) → not (is_empty ss) ≡ false → is_empty ss ≡ true
  not-is_empty [] e = refl
  not-is_empty (s ∷ ss) e = cc

  replaced_goto :
      (old new t : ℕ)
      → replace_option {F = F} old new (some (goto t)) ≡ some (goto (replaced old new t))
  unfolding replace_target
  replaced_goto old new t = refl

  module _ (cfg : Cfg F) (targets : List ℕ) where
    -- What makes a block stay one that is skipped, whatever is skipped otherwise.
    pub record Stuck (i : ℕ) (bs : List (BasicBlock F)) : Type 0 where
      pub block : BasicBlock F
      pub found : get_elem? bs i ≡ some block
      pub empty : is_empty block.stmts ≡ true
      pub unhandled : is_some block.handler ≡ false
      pub target : ℕ
      pub goes : block.terminator ≡ some (goto target)
      pub apart : target ≢ i
      pub preds : List ℕ
      pub preds_found : get_elem? cfg.preds i ≡ some preds
      pub chosen : ((i == cfg.entry || contains targets i) || ltb 1 (length preds)) ≡ false
      pub clean :
          (j : ℕ) (b : BasicBlock F)
          → get_elem? bs j ≡ some b
          → AllNot i (block_successors b.terminator)

    clean-redirect :
        (i old new : ℕ) (bs : List (BasicBlock F))
        → new ≢ i
        → ((j : ℕ) (b : BasicBlock F)
            → get_elem? bs j ≡ some b
            → ((old ≡ i) ⊎ AllNot i (block_successors b.terminator)))
        → (j : ℕ) (b : BasicBlock F) → get_elem? (redirect old new bs) j ≡ some b
        → AllNot i (block_successors b.terminator)
    clean-redirect i old new bs n h j b e =
        let (x, (found, is)) = redirect-found old new j bs b e in
        subst (λ (z : BasicBlock F). AllNot i (block_successors z.terminator)) is
          (redirected-AllNot i old new x.terminator n (h j x found))

    pub Stuck-redirect :
        (i old new : ℕ) (bs : List (BasicBlock F))
        → new ≢ i
        → Stuck i bs
        → Stuck i (redirect old new bs)
    Stuck-redirect i old new bs n s = record {
      block = redirected old new s.block;
      found = get_elem?-redirect old new i bs s.block s.found;
      empty = s.empty;
      unhandled = is_some-replace_handler old new s.block.handler s.unhandled;
      target = replaced old new s.target;
      goes = ap (replace_option old new) s.goes ∙ replaced_goto old new s.target;
      apart = replaced-ne i old new s.target n (inr s.apart);
      preds = s.preds;
      preds_found = s.preds_found;
      chosen = s.chosen;
      clean = clean-redirect i old new bs n (λ j b e. inr (s.clean j b e));
    }

    -- A block that is skipped is stuck behind it.
    pub trivial_target-Stuck :
        (i t : ℕ) (bs : List (BasicBlock F)) (block : BasicBlock F) (preds : List ℕ)
        → get_elem? bs i ≡ some block
        → get_elem? cfg.preds i ≡ some preds
        → trivial_target cfg targets i block preds ≡ some t
        → Stuck i (redirect i t bs)
    unfolding trivial_target
    trivial_target-Stuck i t bs block preds found preds_found h =
        let (tests, goes) =
          if_none
            (((((i == cfg.entry || contains targets i) || ltb 1 (length preds))
                || not (is_empty block.stmts))
              || is_some block.handler))
            (goto_target i block.terminator) t h in
        let (tests4, unhandled) =
          or_false
            (((i == cfg.entry || contains targets i) || ltb 1 (length preds))
              || not (is_empty block.stmts))
            (is_some block.handler) tests in
        let (tests3, full) =
          or_false ((i == cfg.entry || contains targets i) || ltb 1 (length preds))
            (not (is_empty block.stmts)) tests4 in
        let (is_goto, apart) = goto_target-some i t block.terminator goes in
        record {
          block = redirected i t block;
          found = get_elem?-redirect i t i bs block found;
          empty = not-is_empty block.stmts full;
          unhandled = is_some-replace_handler i t block.handler unhandled;
          target = replaced i t t;
          goes = ap (replace_option i t) is_goto ∙ replaced_goto i t t;
          apart = replaced-ne i i t t apart (inl refl);
          preds = preds;
          preds_found = preds_found;
          chosen = tests3;
          clean = clean-redirect i i t bs apart (λ j b e. inl refl);
        }
