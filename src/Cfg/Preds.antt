-- ===== src/Cfg/Preds.antt =====
-- `compute_preds` (src/cfg/mod.rs).
pub mod Filled
pub mod Edges
use mx.Common.{
  ℕ, zero, suc, Bool, true, false, if◌then◌else◌, Option, none, some, List, [], ◌∷◌, ◌++◌,
  get_elem?, set, map,
}
use mx.Common.Runs.{Run, done, panic, ◌>>=◌, or_panic}
use mx.Cfg.{BasicBlock, Cfg, contains, block_successors}

-- One successor of the block `id`.
unfoldable pub add_pred : ℕ → List (List ℕ) → ℕ → Run (List (List ℕ))
add_pred id preds succ = do
  ps ← or_panic (get_elem? preds succ)
  done (if contains ps id then preds else set preds succ (ps ++ id ∷ []))

unfoldable pub add_preds : ℕ → List (List ℕ) → List ℕ → Run (List (List ℕ))
add_preds id preds [] = done preds
add_preds id preds (succ ∷ succs) = do preds' ← add_pred id preds succ; add_preds id preds' succs

unfoldable pub preds_of : {F : Type 0} → List (List ℕ) → List (BasicBlock F) → Run (List (List ℕ))
preds_of preds [] = done preds
preds_of preds (block ∷ blocks) = do
  preds' ← add_preds block.id preds (block_successors block.terminator)
  preds_of preds' blocks

abbrev pub no_preds : {F : Type 0} → List (BasicBlock F) → List (List ℕ)
no_preds [] = []
no_preds (block ∷ blocks) = [] ∷ no_preds blocks

unfoldable pub compute_preds : {F : Type 0} → Cfg F → Run (Cfg F)
compute_preds cfg = do
  preds ← preds_of (no_preds cfg.blocks) cfg.blocks
  done (record cfg { preds = preds; preds_valid = true })
