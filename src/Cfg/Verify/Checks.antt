-- ===== src/Cfg/Verify/Checks.antt =====
-- The checks of `verify` one by one (src/cfg/mod.rs).
use mx.Common.{
  ℕ, suc, ◌+◌, ◌<◌, ◌≡◌, ◌≢◌, refl, sym, ap, ◌∙◌, Bool, Bool-cases, true, false, not, ◌&&◌, ◌==◌,
  ==_iff, ltb, leb, lt→ltb, Option, none, some, some_inj, List, [], ◌∷◌, arith, length, get_elem?,
  get_elem?-lt, all, inl, inr,
}
use mathlib.Core.Path.{subst}
use mx.Common.Runs.{done}
use mx.Cfg.{BasicBlock, contains}
use mx.Cfg.Preds.Filled.{AllPred}
use mx.Cfg.Verify.{has_pred, sequential, handler_exists, follow_handlers, chains_end}
use mx.Cfg.Build.Inv.{AllFit, HandlerFits}

pub lt→leb : {n : ℕ} → 0 < n → leb 1 n ≡ true
lt→leb {n} h = ground arith

ne→not_eq : (a b : ℕ) → a ≢ b → not (a == b) ≡ true
ne→not_eq a b n = elim (Bool-cases (a == b)) [
  | inl e ↦ absurd (n ((==_iff a b).0 e))
  | inr e ↦ rw e refl
]

pub all-contains :
    (p : ℕ → Bool) (ts : List ℕ) → ((t : ℕ) → contains ts t ≡ true → p t ≡ true) → all p ts ≡ true
all-contains p [] h = refl
all-contains p (t ∷ ts) h =
    rw
      (
        h t (rw ((==_iff t t).1 refl) refl),
        all-contains p ts
            (λ t' c. h t' (elim (Bool-cases (t == t')) [ inl e ↦ rw e refl | inr e ↦ rw e c ])),
      )
      refl

pub all-AllFit : (n : ℕ) (ts : List ℕ) → AllFit n ts → all (λ t. ltb t n) ts ≡ true
all-AllFit n [] h = refl
all-AllFit n (t ∷ ts) h = rw (lt→ltb t n h.0.1, all-AllFit n ts h.1) refl

pub all-AllPred :
    (preds : List (List ℕ)) (id : ℕ) (ts : List ℕ)
    → AllPred preds id ts
    → all (has_pred preds id) ts ≡ true
all-AllPred preds id [] h = refl
all-AllPred preds id (t ∷ ts) h = rw (h.0, all-AllPred preds id ts h.1) refl

pub true-false {ℓ} : {A : Type ℓ} → true ≡ false → A
true-false e = cc

some-none : (h : ℕ) → ¬ (some h ≡ none)
some-none h e = cc

module _ {F : Type 0} where
  pub all-found :
      (p : BasicBlock F → Bool) (bs : List (BasicBlock F))
      → ((i : ℕ) (block : BasicBlock F) → get_elem? bs i ≡ some block → p block ≡ true)
      → all p bs ≡ true
  all-found p [] h = refl
  all-found p (block ∷ bs) h = rw (h 0 block refl, all-found p bs (λ i b e. h (suc i) b e)) refl

  pub sequential-found :
      (k : ℕ) (bs : List (BasicBlock F))
      → ((i : ℕ) (block : BasicBlock F) → get_elem? bs i ≡ some block → block.id ≡ k + i)
      → sequential k bs ≡ true
  unfolding sequential
  sequential-found k [] h = refl
  sequential-found k (block ∷ bs) h =
      rw
        (
          (==_iff block.id k).1 (omega (arith, h 0 block refl)),
          sequential-found (suc k) bs (λ i b e. omega (arith, h (suc i) b e)),
        )
        refl

  no_link :
      (n : ℕ) (bs : List (BasicBlock F)) (visited : List ℕ)
      → follow_handlers n bs visited none ≡ done tt
  unfolding follow_handlers
  no_link n bs visited = refl

  -- A chain of handlers has at most one link.
  chain-ends :
      (n : ℕ) (bs : List (BasicBlock F)) (handler : Option ℕ)
      → HandlerFits bs handler
      → follow_handlers (suc n) bs [] handler ≡ done tt
  unfolding follow_handlers
  chain-ends n bs none u = no_link (suc n) bs []
  chain-ends n bs (some h) u = rw (u.found, u.unhandled) (no_link n bs (h ∷ []))

  pub all-chains_end :
      (blocks bs : List (BasicBlock F))
      → ((i : ℕ) (block : BasicBlock F)
          → get_elem? bs i ≡ some block
          → HandlerFits blocks block.handler)
      → chains_end blocks bs ≡ done tt
  unfolding chains_end
  all-chains_end blocks [] h = refl
  all-chains_end blocks (block ∷ bs) h =
      rw (chain-ends (length blocks) blocks block.handler (h 0 block refl))
        (all-chains_end blocks bs (λ i b e. h (suc i) b e))

  -- A handler is there, and not the block itself, which has one.
  handler-fits :
      (bs : List (BasicBlock F)) (i : ℕ) (block : BasicBlock F) (handler : Option ℕ)
      → get_elem? bs i ≡ some block
      → block.id ≡ i
      → block.handler ≡ handler
      → HandlerFits bs handler
      → (elim handler [ none ↦ true | some h ↦ ltb h (length bs) && not (h == block.id) ]) ≡ true
  handler-fits bs i block none e at is fit = refl
  handler-fits bs i block (some h) e at is fit =
      rw
        (
          lt→ltb h (length bs) (get_elem?-lt bs h fit.found),
          ne→not_eq h block.id (λ same. some-none h (
              sym is
              ∙ ap (λ (b : BasicBlock F). b.handler)
                  (some_inj
                    (sym e ∙ subst (λ z. get_elem? bs z ≡ some fit.block) (same ∙ at) fit.found))
              ∙ fit.unhandled)),
        )
        refl

  pub handler_exists-found :
      (bs : List (BasicBlock F)) (i : ℕ) (block : BasicBlock F)
      → get_elem? bs i ≡ some block
      → block.id ≡ i
      → HandlerFits bs block.handler
      → handler_exists (length bs) block ≡ true
  handler_exists-found bs i block e at fit = handler-fits bs i block block.handler e at refl fit
