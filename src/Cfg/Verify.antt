-- ===== src/Cfg/Verify.antt =====
-- `verify` (src/cfg/mod.rs): a violation panics.
pub mod Checks
pub mod Passes
use mx.Common.{
  ℕ, zero, suc, ◌+◌, ◌==◌, ltb, leb, Bool, true, false, not, ◌&&◌, ◌||◌, if◌then◌else◌, Option,
  none, some, List, [], ◌∷◌, get_elem?, all, length,
}
use mx.Common.Runs.{Run, done, panic, out_of_fuel, ◌>>=◌, ◌>>◌, assert, or_panic}
use mx.Cfg.{
  Terminator, switch, SwitchArm, BasicBlock, Cfg, contains, is_some, is_empty, block_successors,
}

-- P1, P3
unfoldable pub has_pred : List (List ℕ) → ℕ → ℕ → Bool
has_pred preds id succ = elim (get_elem? preds succ) [ none ↦ false | some ps ↦ contains ps id ]

abbrev pub no_pred_of : List (List ℕ) → ℕ → Bool
no_pred_of preds b = elim (get_elem? preds b) [ none ↦ false | some ps ↦ is_empty ps ]

module _ {F : Type 0} where
  -- S3
  unfoldable pub sequential : ℕ → List (BasicBlock F) → Bool
  sequential i [] = true
  sequential i (block ∷ blocks) = block.id == i && sequential (suc i) blocks

  -- S4, T1
  abbrev pub sealed : BasicBlock F → Bool
  sealed block = is_some block.terminator

  abbrev pub targets_exist : ℕ → BasicBlock F → Bool
  targets_exist n block = all (λ succ. ltb succ n) (block_successors block.terminator)

  -- T3, T5
  abbrev pub labelled : SwitchArm F → Bool
  labelled arm = not (is_empty arm.labels)

  unfoldable pub arms_present : Option (Terminator F) → Bool
  arms_present (some (switch e arms default)) = not (is_empty arms) && all labelled arms
  arms_present _ = true

  -- H1, H2
  abbrev pub handler_exists : ℕ → BasicBlock F → Bool
  handler_exists n block = elim block.handler [
    | none ↦ true
    | some h ↦ ltb h n && not (h == block.id)
  ]

  -- H3: the loop along a chain of handlers. Each round visits another block, so as many rounds as
  -- there are blocks, and one, are enough.
  unfoldable pub follow_handlers : ℕ → List (BasicBlock F) → List ℕ → Option ℕ → Run (Unit {0})
  follow_handlers f blocks visited none = done tt
  follow_handlers zero blocks visited (some h) = out_of_fuel
  follow_handlers (suc f) blocks visited (some h) = do
    assert (not (contains visited h))
    block ← or_panic (get_elem? blocks h)
    follow_handlers f blocks (h ∷ visited) block.handler

  unfoldable pub chains_end : List (BasicBlock F) → List (BasicBlock F) → Run (Unit {0})
  chains_end blocks [] = done tt
  chains_end blocks (block ∷ rest) = do
    follow_handlers (suc (length blocks)) blocks [] block.handler
    chains_end blocks rest

  abbrev pub in_preds : List (List ℕ) → BasicBlock F → Bool
  in_preds preds block = all (has_pred preds block.id) (block_successors block.terminator)

  -- P2
  unfoldable pub has_successor : List (BasicBlock F) → ℕ → ℕ → Bool
  has_successor blocks b p = elim (get_elem? blocks p) [
    | none ↦ false
    | some block ↦ contains (block_successors block.terminator) b
  ]

  unfoldable pub preds_target : List (BasicBlock F) → ℕ → List (List ℕ) → Bool
  preds_target blocks b [] = true
  preds_target blocks b (ps ∷ rest) =
      all (has_successor blocks b) ps && preds_target blocks (suc b) rest

  unfoldable pub preds_consistent : Cfg F → Bool
  preds_consistent cfg =
      length cfg.preds == length cfg.blocks
      && no_pred_of cfg.preds cfg.entry
      && all (in_preds cfg.preds) cfg.blocks
      && preds_target cfg.blocks 0 cfg.preds

  unfoldable pub verify : Cfg F → Run (Unit {0})
  verify cfg = do
    assert (cfg.entry == 0)
    assert (leb 1 (length cfg.blocks))
    assert (sequential 0 cfg.blocks)
    assert (all sealed cfg.blocks)
    assert (all (targets_exist (length cfg.blocks)) cfg.blocks)
    assert (all (λ block. arms_present block.terminator) cfg.blocks)
    assert (all (handler_exists (length cfg.blocks)) cfg.blocks)
    chains_end cfg.blocks cfg.blocks
    assert (not cfg.preds_valid || preds_consistent cfg)
