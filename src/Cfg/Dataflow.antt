-- ===== src/Cfg/Dataflow.antt =====
-- The forward dataflow framework (src/cfg/dataflow.rs).
use mx.Common.{
  ℕ, zero, suc, Bool, true, false, List, [], ◌∷◌, ◌++◌, get_elem?, set, if◌then◌else◌, ◌≡◌, ◌↔◌,
}
use mx.Common.Runs.{Run, done, out_of_fuel, ◌>>=◌, ◌>>◌, assert, or_panic}
use mx.Cfg.{BasicBlock, Cfg, contains, block_successors}

-- `ForwardAnalysis`, with the derived equality of the states.
pub record ForwardAnalysis (F : Type 0) : Type 1 where
  pub State : Type 0
  pub eq : State → State → Bool
  pub eq_iff : (a b : State) → (eq a b ≡ true) ↔ (a ≡ b)
  pub entry_state : State
  pub bottom : State
  pub join : State → State → State
  pub transfer : Cfg F → ℕ → State → State

pub record DataflowResult (S : Type 0) : Type 0 where
  pub block_in : List S
  pub block_out : List S

-- The successors that are not in the worklist yet join it at its end.
abbrev pub enqueue : List ℕ → List ℕ → List ℕ
enqueue [] worklist = worklist
enqueue (succ ∷ succs) worklist =
    enqueue succs (if contains worklist succ then worklist else worklist ++ succ ∷ [])

module _ {F : Type 0} (analysis : ForwardAnalysis F) (cfg : Cfg F) where
  open analysis use {State, eq, entry_state, bottom, join, transfer}

  abbrev pub all_bottom : List (BasicBlock F) → List State
  all_bottom [] = []
  all_bottom (block ∷ blocks) = bottom ∷ all_bottom blocks

  unfoldable pub join_preds : State → List ℕ → List State → Run State
  join_preds joined [] outs = done joined
  join_preds joined (pred ∷ preds) outs = do
    out ← or_panic (get_elem? outs pred)
    join_preds (join joined out) preds outs

  -- The state at the entry of a block with these predecessors.
  unfoldable pub incoming : List ℕ → List State → Run State
  incoming [] outs = done entry_state
  incoming (pred ∷ preds) outs = do out ← or_panic (get_elem? outs pred); join_preds out preds outs

  unfoldable pub successors_of : ℕ → Run (List ℕ)
  successors_of b = do
    block ← or_panic (get_elem? cfg.blocks b)
    done (block_successors block.terminator)

  unfoldable pub solve_loop : ℕ → DataflowResult State → List ℕ → Run (DataflowResult State)
  solve_loop f r [] = done r
  solve_loop zero r (bid ∷ worklist) = out_of_fuel
  solve_loop (suc f) r (bid ∷ worklist) = do
    preds ← or_panic (get_elem? cfg.preds bid)
    new_in ← incoming preds r.block_out
    old_out ← or_panic (get_elem? r.block_out bid)
    elim (eq (transfer cfg bid new_in) old_out) [
      | true ↦ solve_loop f r worklist
      | false ↦ do
        succs ← successors_of bid
        solve_loop f
            (record {
              block_in = set r.block_in bid new_in;
              block_out = set r.block_out bid (transfer cfg bid new_in);
            })
            (enqueue succs worklist)
    ]

  -- The states before the loop: an entry out of range panics.
  unfoldable pub initial : Run (DataflowResult State)
  initial = do
    block ← or_panic (get_elem? cfg.blocks cfg.entry)
    done (record {
      block_in = set (all_bottom cfg.blocks) cfg.entry entry_state;
      block_out = set (all_bottom cfg.blocks) cfg.entry (transfer cfg cfg.entry entry_state);
    })

  -- `f` is the number of rounds: whether there is an end depends on the analysis.
  unfoldable pub solve_forward : ℕ → Run (DataflowResult State)
  solve_forward f = do
    assert cfg.preds_valid
    start ← initial
    succs ← successors_of cfg.entry
    solve_loop f start (enqueue succs [])
