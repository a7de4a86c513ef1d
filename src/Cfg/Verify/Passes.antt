-- ===== src/Cfg/Verify/Passes.antt =====
-- A graph whose blocks fit passes `verify` once `compute_preds` has run (src/cfg/mod.rs).
use mx.Common.{
  ℕ, zero, suc, ◌+◌, ◌<◌, ◌≡◌, refl, sym, ap, ◌∙◌, Bool-cases, true, false, ◌==◌, ==_iff, some,
  some_inj, List, [], ◌∷◌, arith, length, get_elem?, all, inl, inr,
}
use mathlib.Core.Path.{subst}
use mx.Common.Runs.{done}
use mx.Cfg.{BasicBlock, Cfg, contains, block_successors}
use mx.Cfg.Preds.{no_preds, compute_preds}
use mx.Cfg.Preds.Filled.{Filling, AllSucc, BlocksSucc, BlocksPred, preds_of-Fills}
use mx.Cfg.Verify.{
  no_pred_of, sealed, targets_exist, arms_present, handler_exists, in_preds, has_successor,
  preds_target, preds_consistent, verify,
}
use mx.Cfg.Build.Inv.{AllFit, Inv}
use mx.Cfg.Verify.Checks.{
  lt→leb, all-contains, all-AllFit, all-AllPred, true-false, all-found, sequential-found,
  all-chains_end, handler_exists-found,
}

module _ {F : Type 0} where
  no_preds-entry : (bs : List (BasicBlock F)) → 0 < length bs → no_pred_of (no_preds bs) 0 ≡ true
  no_preds-entry [] pos = absurd (omega (arith, pos))
  no_preds-entry (block ∷ bs) pos = refl

  length-no_preds : (bs : List (BasicBlock F)) → length (no_preds bs) ≡ length bs
  length-no_preds [] = refl
  length-no_preds (block ∷ bs) = ap suc (length-no_preds bs)

  no_preds-nil :
      (bs : List (BasicBlock F)) (b p : ℕ) (ps : List ℕ)
      → get_elem? (no_preds bs) b ≡ some ps
      → contains ps p ≡ false
  no_preds-nil [] b p ps e = cc
  no_preds-nil (block ∷ bs) zero p ps e = subst (λ z. contains z p ≡ false) (some_inj e) refl
  no_preds-nil (block ∷ bs) (suc b) p ps e = no_preds-nil bs b p ps e

  pub no_preds-Filling : (bs : List (BasicBlock F)) → 0 < length bs → Filling bs (no_preds bs)
  no_preds-Filling bs pos = record {
    as_long = length-no_preds bs;
    entry_free = no_preds-entry bs pos;
    right = λ b p ps e c. true-false (sym c ∙ no_preds-nil bs b p ps e);
  }

  AllSucc-AllFit :
      (blocks : List (BasicBlock F)) (id : ℕ) (ts : List ℕ)
      → AllFit (length blocks) ts
      → ((t : ℕ) → contains ts t ≡ true → has_successor blocks t id ≡ true)
      → AllSucc blocks id ts
  AllSucc-AllFit blocks id [] fit h = tt
  AllSucc-AllFit blocks id (t ∷ ts) fit h = (
    fit.0,
    (
      h t (rw ((==_iff t t).1 refl) refl),
      AllSucc-AllFit blocks id ts fit.1
          (λ t' c. h t' (elim (Bool-cases (t == t')) [ inl e ↦ rw e refl | inr e ↦ rw e c ])),
    ),
  )

  has_successor-found :
      (blocks : List (BasicBlock F)) (p t : ℕ) (block : BasicBlock F)
      → get_elem? blocks p ≡ some block
      → contains (block_successors block.terminator) t ≡ true
      → has_successor blocks t p ≡ true
  unfolding has_successor
  has_successor-found blocks p t block e h = rw (e, has_successor) h

  BlocksSucc-found :
      (blocks rest : List (BasicBlock F))
      → ((i : ℕ) (block : BasicBlock F)
          → get_elem? rest i ≡ some block
          → AllSucc blocks block.id (block_successors block.terminator))
      → BlocksSucc blocks rest
  BlocksSucc-found blocks [] h = tt
  BlocksSucc-found blocks (block ∷ rest) h =
      (h 0 block refl, BlocksSucc-found blocks rest (λ i b e. h (suc i) b e))

  all-BlocksPred :
      (preds : List (List ℕ)) (bs : List (BasicBlock F))
      → BlocksPred preds bs
      → all (in_preds preds) bs ≡ true
  all-BlocksPred preds [] h = refl
  all-BlocksPred preds (block ∷ bs) h =
      rw
        (
          all-AllPred preds block.id (block_successors block.terminator) h.0,
          all-BlocksPred preds bs h.1,
        )
        refl

  preds_target-right :
      (blocks : List (BasicBlock F)) (k : ℕ) (preds : List (List ℕ))
      → ((i p : ℕ) (ps : List ℕ)
          → get_elem? preds i ≡ some ps
          → contains ps p ≡ true
          → has_successor blocks (k + i) p ≡ true)
      → preds_target blocks k preds ≡ true
  unfolding preds_target
  preds_target-right blocks k [] h = refl
  preds_target-right blocks k (ps ∷ rest) h =
      rw
        (
          all-contains (has_successor blocks k) ps
              (λ p c. subst (λ z. has_successor blocks z p ≡ true) (omega arith) (h 0 p ps refl c)),
          preds_target-right blocks (suc k) rest (λ i p qs e c.
              subst (λ z. has_successor blocks z p ≡ true) (omega arith) (h (suc i) p qs e c)),
        )
        refl

  module _ (blocks : List (BasicBlock F)) {loops handlers : List ℕ}
      (v : Inv blocks loops handlers) where
    pub all_succ : BlocksSucc blocks blocks
    all_succ = BlocksSucc-found blocks blocks (λ i block e.
        let fits = v.blocks_fit i block e in
        AllSucc-AllFit blocks block.id (block_successors block.terminator) fits.targets (λ t c.
          has_successor-found blocks block.id t block
            (subst (λ z. get_elem? blocks z ≡ some block) (sym fits.numbered) e) c))

    -- `compute_preds` returns, and the graph passes.
    pub verify-done :
        all sealed blocks ≡ true
        → (cfg : Cfg F) × ((compute_preds
                (record { blocks = blocks; entry = 0; preds = []; preds_valid = false })
              ≡ done cfg)
            × (verify cfg ≡ done tt))
    unfolding compute_preds verify preds_consistent
    verify-done all_sealed =
        let (s, all_pred) =
          preds_of-Fills blocks blocks (no_preds blocks) (no_preds-Filling blocks v.entry_there)
            all_succ in
        let n = length blocks in
        (
          record { blocks = blocks; entry = 0; preds = s.after; preds_valid = true },
          (
            rw s.runs refl,
            rw
                (
                  lt→leb v.entry_there,
                  sequential-found 0 blocks
                      (λ i block e. omega (arith, (v.blocks_fit i block e).numbered)),
                  all_sealed,
                  all-found (targets_exist n) blocks (λ i block e.
                      all-AllFit n (block_successors block.terminator)
                        (v.blocks_fit i block e).targets),
                  all-found (λ block. arms_present block.terminator) blocks
                      (λ i block e. (v.blocks_fit i block e).arms),
                  all-found (handler_exists n) blocks (λ i block e.
                      handler_exists-found blocks i block e (v.blocks_fit i block e).numbered
                        (v.blocks_fit i block e).handled),
                  all-chains_end blocks blocks (λ i block e. (v.blocks_fit i block e).handled),
                  (==_iff (length s.after) n).1 s.filling.as_long,
                  s.filling.entry_free,
                  all-BlocksPred s.after blocks all_pred,
                  preds_target-right blocks 0 s.after (λ i p ps e c.
                      subst (λ z. has_successor blocks z p ≡ true) (omega arith)
                        (s.filling.right i p ps e c)),
                )
                refl,
          ),
        )
