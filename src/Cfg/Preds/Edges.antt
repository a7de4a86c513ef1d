-- ===== src/Cfg/Preds/Edges.antt =====
-- The predecessors that `compute_preds` lists are the edges of the graph (src/cfg/mod.rs).
use mx.Common.{
  ℕ, zero, suc, ◌≡◌, refl, sym, ◌∙◌, ◌↔◌, Bool-cases, true, ◌==◌, ==_iff, Option, none, some,
  some_inj, List, [], ◌∷◌, get_elem?, inl, inr,
}
use mathlib.Core.Path.{subst}
use mx.Common.Runs.{done}
use mx.Cfg.{BasicBlock, Cfg, contains, block_successors}
use mx.Cfg.Preds.{no_preds, compute_preds}
use mx.Cfg.Preds.Filled.{AllPred, BlocksPred, preds_of-Fills, ||-true}
use mx.Cfg.Verify.{has_pred, has_successor}
use mx.Cfg.Verify.Checks.{true-false}
use mx.Cfg.Verify.Passes.{no_preds-Filling, all_succ}
use mx.Cfg.Build.Inv.{Inv}

AllPred-contains :
    (preds : List (List ℕ)) (id t : ℕ) (ts : List ℕ)
    → AllPred preds id ts
    → contains ts t ≡ true
    → has_pred preds id t ≡ true
AllPred-contains preds id t [] h c = cc
AllPred-contains preds id t (t' ∷ ts) h c = elim (Bool-cases (t' == t)) [
  | inl is ↦ subst (λ z. has_pred preds id z ≡ true) ((==_iff t' t).0 is) h.0
  | inr n ↦
      AllPred-contains preds id t ts h.1
        (elim (||-true (t' == t) (contains ts t) c) [ inl is ↦ cc | inr d ↦ d ])
]

has_pred-list :
    (preds : List (List ℕ)) (p t : ℕ)
    → has_pred preds p t ≡ true
    → (ps : List ℕ) × ((get_elem? preds t ≡ some ps) × (contains ps p ≡ true))
unfolding has_pred
has_pred-list preds p t h = found (get_elem? preds t) refl
  where
    found :
        (o : Option (List ℕ))
        → get_elem? preds t ≡ o
        → (ps : List ℕ) × ((get_elem? preds t ≡ some ps) × (contains ps p ≡ true))
    found none e = absurd (true-false (sym h ∙ rw (e, has_pred) refl))
    found (some ps) e = (ps, (e, sym (rw (e, has_pred) refl) ∙ h))

module _ {F : Type 0} where
  BlocksPred-contains :
      (preds : List (List ℕ)) (bs : List (BasicBlock F)) (i t : ℕ) (block : BasicBlock F)
      → BlocksPred preds bs
      → get_elem? bs i ≡ some block
      → contains (block_successors block.terminator) t ≡ true
      → has_pred preds block.id t ≡ true
  BlocksPred-contains preds [] i t block h e c = cc
  BlocksPred-contains preds (b ∷ bs) zero t block h e c =
      subst (λ (z : BasicBlock F). has_pred preds z.id t ≡ true) (some_inj e)
        (AllPred-contains preds b.id t (block_successors b.terminator) h.0 (
          subst (λ (z : BasicBlock F). contains (block_successors z.terminator) t ≡ true)
            (sym (some_inj e)) c))
  BlocksPred-contains preds (b ∷ bs) (suc i) t block h e c =
      BlocksPred-contains preds bs i t block h.1 e c

  -- A successor has its block.
  has_successor-block :
      (blocks : List (BasicBlock F)) (t p : ℕ)
      → has_successor blocks t p ≡ true
      → (block : BasicBlock F) × ((get_elem? blocks p ≡ some block)
          × (contains (block_successors block.terminator) t ≡ true))
  unfolding has_successor
  has_successor-block blocks t p h = found (get_elem? blocks p) refl
    where
      found :
          (o : Option (BasicBlock F))
          → get_elem? blocks p ≡ o
          → (block : BasicBlock F) × ((get_elem? blocks p ≡ some block)
              × (contains (block_successors block.terminator) t ≡ true))
      found none e = absurd (true-false (sym h ∙ rw (e, has_successor) refl))
      found (some block) e = (block, (e, sym (rw (e, has_successor) refl) ∙ h))

  -- On blocks that fit, `compute_preds` returns and changes only the predecessors, and then `p` is listed at a
  -- block `t` if and only if `t` is a target of the terminator of `p`.
  pub compute_preds_iff :
      (cfg : Cfg F) (loops handlers : List ℕ)
      → Inv cfg.blocks loops handlers
      → (preds : List (List ℕ)) × ((compute_preds cfg
            ≡ done (record cfg { preds = preds; preds_valid = true }))
          × ((t p : ℕ) → (has_pred preds p t ≡ true) ↔ (has_successor cfg.blocks t p ≡ true)))
  unfolding compute_preds
  compute_preds_iff cfg loops handlers v =
      let blocks = cfg.blocks in
      let (s, all_pred) =
        preds_of-Fills blocks blocks (no_preds blocks) (no_preds-Filling blocks v.entry_there)
          (all_succ blocks v) in
      (
        s.after,
        (
          rw s.runs refl,
          λ t p. (
            (λ h. let (ps, (e, c)) = has_pred-list s.after p t h in s.filling.right t p ps e c),
            (λ h.
                let (block, (e, c)) = has_successor-block blocks t p h in
                subst (λ z. has_pred s.after z t ≡ true) (v.blocks_fit p block e).numbered
                  (BlocksPred-contains s.after blocks p t block all_pred e c)),
          ),
        ),
      )
