-- ===== src/Cfg/Cleanup/Endless.antt =====
-- `collapse_trivial_gotos` does not end once it has skipped a block (src/cfg/mod.rs).
use mx.Common.{
  ℕ, zero, suc, ◌+◌, ◌≤◌, ◌<◌, ◌≡◌, ◌≢◌, refl, sym, ap, ◌∙◌, Bool, Bool-cases, true, false, not,
  ltb, ◌||◌, ◌==◌, ==_iff, Option, none, some, some_inj, List, arith, length, get_elem?,
  get_elem?-lt, inl, inr,
}
use mathlib.Core.Path.{subst}
use mx.Common.Runs.{Run, done, panic, out_of_fuel, ◌>>=◌, or_panic, done_inj}
use mx.Cfg.{
  Terminator, goto, successors, BasicBlock, Cfg, contains, is_some, is_empty, block_successors,
}
use mx.Cfg.Build.Blocks.{eq_or_ne}
use mx.Cfg.Cleanup.{goto_target, trivial_target, redirect, collapse_round, collapse_loop}
use mx.Cfg.Cleanup.Collapse.{
  if_none, if-false, true-false, AllNot, goto_target-some, Stuck, Stuck-redirect,
  trivial_target-Stuck,
}

none-some : {A : Type 0} {a : A} → ¬ (none ≡ some a)
none-some e = cc

module _ {F : Type 0} (cfg : Cfg F) (targets : List ℕ) where
  trivial_target-goto :
      (i t : ℕ) (block : BasicBlock F) (preds : List ℕ)
      → trivial_target cfg targets i block preds ≡ some t
      → block.terminator ≡ some (goto t)
  unfolding trivial_target
  trivial_target-goto i t block preds h =
      (goto_target-some i t block.terminator
        (if_none
          (i == cfg.entry
            || contains targets i
            || ltb 1 (length preds)
            || not (is_empty block.stmts)
            || is_some block.handler)
          (goto_target i block.terminator) t h).1).0

  -- A stuck block is skipped.
  Stuck-skipped :
      (i : ℕ) (bs : List (BasicBlock F)) (s : Stuck cfg targets i bs)
      → trivial_target cfg targets i s.block s.preds ≡ some s.target
  unfolding trivial_target
  Stuck-skipped i bs s =
      rw (s.chosen, s.empty, s.unhandled, s.goes)
        (if-false (s.target == i) none (some s.target) (elim (Bool-cases (s.target == i)) [
          | inl e ↦ absurd (s.apart ((==_iff s.target i).0 e))
          | inr e ↦ e
        ]))

  -- What a round did with its first block.
  data First (k i : ℕ) (bs : List (BasicBlock F)) (r : List (BasicBlock F) × Bool) : Type 0 where
    kept :
        (block : BasicBlock F) (preds : List ℕ)
        → get_elem? bs i ≡ some block
        → get_elem? cfg.preds i ≡ some preds
        → trivial_target cfg targets i block preds ≡ none
        → collapse_round cfg targets k (suc i) bs ≡ done r
        → First k i bs r
    skipped :
        (block : BasicBlock F) (preds : List ℕ) (t : ℕ) (changed : Bool)
        → get_elem? bs i ≡ some block
        → get_elem? cfg.preds i ≡ some preds
        → trivial_target cfg targets i block preds ≡ some t
        → collapse_round cfg targets k (suc i) (redirect i t bs) ≡ done (r.0, changed)
        → r.1 ≡ true
        → First k i bs r

  changed_by :
      (r0 : Run (List (BasicBlock F) × Bool)) (r : List (BasicBlock F) × Bool)
      → (r0 >>= λ (blocks', changed). done (blocks', true)) ≡ done r
      → (changed : Bool) × ((r0 ≡ done (r.0, changed)) × (r.1 ≡ true))
  changed_by (done (bs, c)) r h =
      (c, (ap (λ z. done (z.0, c)) (done_inj h), sym (ap (λ z. z.1) (done_inj h))))
  changed_by panic r h = cc
  changed_by out_of_fuel r h = cc

  round-First :
      (k i : ℕ) (bs : List (BasicBlock F)) (r : List (BasicBlock F) × Bool)
      → collapse_round cfg targets (suc k) i bs ≡ done r
      → First k i bs r
  unfolding collapse_round
  round-First k i bs r = at (get_elem? bs i) (get_elem? cfg.preds i) refl refl
    where
      decided :
          (block : BasicBlock F) (preds : List ℕ) (o : Option ℕ)
          → get_elem? bs i ≡ some block
          → get_elem? cfg.preds i ≡ some preds
          → trivial_target cfg targets i block preds ≡ o
          → (elim o [
            | none ↦ collapse_round cfg targets k (suc i) bs
            | some target ↦
                collapse_round cfg targets k (suc i) (redirect i target bs)
                >>= λ (blocks', changed). done (blocks', true)
          ])
            ≡ done r
          → First k i bs r
      decided block preds none e p is h = kept block preds e p is h
      decided block preds (some t) e p is h =
          let (changed, (run, set)) =
            changed_by (collapse_round cfg targets k (suc i) (redirect i t bs)) r h in
          skipped block preds t changed e p is run set

      at :
          (o : Option (BasicBlock F)) (p : Option (List ℕ))
          → get_elem? bs i ≡ o
          → get_elem? cfg.preds i ≡ p
          → (or_panic o >>= λ block. or_panic p >>= λ preds.
              elim (trivial_target cfg targets i block preds) [
                | none ↦ collapse_round cfg targets k (suc i) bs
                | some target ↦
                    collapse_round cfg targets k (suc i) (redirect i target bs)
                    >>= λ (blocks', changed). done (blocks', true)
              ])
            ≡ done r
          → First k i bs r
      at none p e q h = cc
      at (some block) none e q h = cc
      at (some block) (some preds) e q h =
          decided block preds (trivial_target cfg targets i block preds) e q refl h

  not_target :
      (i t : ℕ) (term : Option (Terminator F))
      → term ≡ some (goto t)
      → AllNot i (block_successors term)
      → t ≢ i
  unfolding successors
  not_target i t term e h = (subst (λ z. AllNot i (block_successors z)) e h).0

  -- A round keeps a stuck block stuck, and skips it where it comes to it.
  Stuck-round :
      (i k j : ℕ) (bs : List (BasicBlock F)) (r : List (BasicBlock F) × Bool)
      → Stuck cfg targets i bs
      → collapse_round cfg targets k j bs ≡ done r
      → Stuck cfg targets i r.0 × (j ≤ i → i < j + k → r.1 ≡ true)
  unfolding collapse_round
  Stuck-round i zero j bs r s h = (
    subst (λ z. Stuck cfg targets i z) (ap (λ z. z.0) (done_inj h)) s,
    (λ le lt. absurd (omega (arith, le, lt))),
  )
  Stuck-round i (suc k) j bs r s h =
      by_first (λ bs' r' s' h'. Stuck-round i k (suc j) bs' r' s' h') (round-First k j bs r h)
    where
      by_first :
          ((bs' : List (BasicBlock F)) (r' : List (BasicBlock F) × Bool)
            → Stuck cfg targets i bs'
            → collapse_round cfg targets k (suc j) bs' ≡ done r'
            → Stuck cfg targets i r'.0 × (suc j ≤ i → i < suc j + k → r'.1 ≡ true))
          → First k j bs r
          → Stuck cfg targets i r.0 × (j ≤ i → i < j + suc k → r.1 ≡ true)
      by_first again (kept block preds found p is run) =
          let (stuck, later) = again bs r s run in
          (
            stuck,
            (λ le lt. elim (eq_or_ne i j) [
              | inl at ↦
                  let same : s.block ≡ block =
                    some_inj
                      (sym s.found ∙ subst (λ z. get_elem? bs z ≡ some block) (sym at) found) in
                  let same_preds : s.preds ≡ preds = some_inj (
                    sym s.preds_found
                    ∙ subst (λ z. get_elem? cfg.preds z ≡ some preds) (sym at) p) in
                  absurd (
                    none-some (
                      sym is
                      ∙ subst (λ z. trivial_target cfg targets z block preds ≡ some s.target) at
                          (subst (λ z. trivial_target cfg targets i z preds ≡ some s.target) same
                            (subst (λ z. trivial_target cfg targets i s.block z ≡ some s.target)
                              same_preds (Stuck-skipped i bs s)))))
              | inr n ↦ later (omega (arith, le, n)) (omega (arith, lt))
            ]),
          )
      by_first again (skipped block preds t changed found p is run set) =
          let apart =
            not_target i t (block.terminator) (trivial_target-goto j t block preds is)
              (s.clean j block found) in
          (
            (again (redirect j t bs) (r.0, changed) (Stuck-redirect cfg targets i j t bs apart s)
                run).0,
            (λ le lt. set),
          )

  -- A round that skips a block leaves one that is stuck.
  round-Stuck :
      (k j : ℕ) (bs : List (BasicBlock F)) (r : List (BasicBlock F) × Bool)
      → collapse_round cfg targets k j bs ≡ done r
      → r.1 ≡ true
      → (i : ℕ) × Stuck cfg targets i r.0
  unfolding collapse_round
  round-Stuck zero j bs r h c = absurd (true-false (sym c ∙ sym (ap (λ z. z.1) (done_inj h))))
  round-Stuck (suc k) j bs r h c =
      by_first (λ run. round-Stuck k (suc j) bs r run c) (round-First k j bs r h)
    where
      by_first :
          (collapse_round cfg targets k (suc j) bs ≡ done r → (i : ℕ) × Stuck cfg targets i r.0)
          → First k j bs r
          → (i : ℕ) × Stuck cfg targets i r.0
      by_first again (kept block preds found p is run) = again run
      by_first again (skipped block preds t changed found p is run set) = (
        j,
        (Stuck-round j k (suc j) (redirect j t bs) (r.0, changed)
            (trivial_target-Stuck cfg targets j t bs block preds found p is) run).0,
      )

  Stuck-endless :
      (f i : ℕ) (bs result : List (BasicBlock F))
      → Stuck cfg targets i bs
      → ¬ (collapse_loop f cfg targets bs ≡ done result)
  unfolding collapse_loop
  Stuck-endless zero i bs result s h = cc
  Stuck-endless (suc f) i bs result s h =
      by_round (λ bs' s' h'. Stuck-endless f i bs' result s' h')
        (collapse_round cfg targets (length bs) 0 bs) refl h
    where
      by_round :
          ((bs' : List (BasicBlock F))
            → Stuck cfg targets i bs'
            → collapse_loop f cfg targets bs' ≡ done result
            → ⊥)
          → (r : Run (List (BasicBlock F) × Bool)) → collapse_round cfg targets (length bs) 0 bs ≡ r
          → (r >>= λ (blocks', changed). elim changed [
            | true ↦ collapse_loop f cfg targets blocks'
            | false ↦ done blocks'
          ])
            ≡ done result
          → ⊥
      by_round again (done (bs', true)) e h' =
          again bs' (Stuck-round i (length bs) 0 bs (bs', true) s e).0 h'
      by_round again (done (bs', false)) e h' = true-false (
          sym (
            (Stuck-round i (length bs) 0 bs (bs', false) s e).1 (omega arith)
              (omega (arith, get_elem?-lt bs i s.found))))
      by_round again panic e h' = cc
      by_round again out_of_fuel e h' = cc

  -- Once a round of the loop has skipped a block, the loop does not return, however many rounds it runs.
  pub collapse_loop-endless :
      (f : ℕ) (bs after result : List (BasicBlock F))
      → collapse_round cfg targets (length bs) 0 bs ≡ done (after, true)
      → ¬ (collapse_loop f cfg targets bs ≡ done result)
  unfolding collapse_loop
  collapse_loop-endless zero bs after result skips h = cc
  collapse_loop-endless (suc f) bs after result skips h =
      let (i, stuck) = round-Stuck (length bs) 0 bs (after, true) skips refl in
      Stuck-endless f i after result stuck (sym (rw skips refl) ∙ h)
