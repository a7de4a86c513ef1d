-- ===== src/Cfg/Cleanup.antt =====
-- `cleanup` (src/cfg/mod.rs): unreachable blocks are removed, and blocks that only go on are skipped.
pub mod Collapse
pub mod Endless
use mx.Common.{
  ℕ, zero, suc, ◌+◌, ◌==◌, ltb, Bool, true, false, not, ◌||◌, if◌then◌else◌, Option, none, some,
  List, [], ◌∷◌, get_elem?, set, length,
}
use mx.Common.Runs.{Run, done, panic, out_of_fuel, ◌>>=◌, or_panic}
use mx.Cfg.{
  Terminator, goto, BasicBlock, Cfg, successors, contains, is_some, is_empty, block_successors,
  remap_targets, replace_target,
}
use mx.Cfg.Preds.{compute_preds}

-- A vector that is used as a stack, with its top first: pushed one after the other.
abbrev pub push_all : List ℕ → List ℕ → List ℕ
push_all [] queue = queue
push_all (x ∷ xs) queue = push_all xs (x ∷ queue)

abbrev pub push_some : Option ℕ → List ℕ → List ℕ
push_some none queue = queue
push_some (some h) queue = h ∷ queue

-- `new_id`: the numbers of the reachable blocks in their order, and 0 for the others.
unfoldable pub new_ids : ℕ → List Bool → List ℕ
new_ids next [] = []
new_ids next (true ∷ reachable) = next ∷ new_ids (suc next) reachable
new_ids next (false ∷ reachable) = 0 ∷ new_ids next reachable

abbrev pub replace_handler : ℕ → ℕ → Option ℕ → Option ℕ
replace_handler old new none = none
replace_handler old new (some h) = some (if h == old then new else h)

module _ {F : Type 0} where
  -- The loop over the queue.
  unfoldable pub reach_loop : ℕ → List (BasicBlock F) → List Bool → List ℕ → Run (List Bool)
  reach_loop f blocks reachable [] = done reachable
  reach_loop zero blocks reachable (b ∷ queue) = out_of_fuel
  reach_loop (suc f) blocks reachable (b ∷ queue) = do
    seen ← or_panic (get_elem? reachable b)
    elim seen [
      | true ↦ reach_loop f blocks reachable queue
      | false ↦ do
        block ← or_panic (get_elem? blocks b)
        term ← or_panic block.terminator
        reach_loop f blocks (set reachable b true)
            (push_some block.handler (push_all (successors term) queue))
    ]

  -- A block is taken from the queue once for the entry and once for every edge.
  unfoldable pub edges : List (BasicBlock F) → ℕ
  edges [] = 0
  edges (block ∷ blocks) = length (block_successors block.terminator) + 1 + edges blocks

  abbrev pub none_reached : List (BasicBlock F) → List Bool
  none_reached [] = []
  none_reached (block ∷ blocks) = false ∷ none_reached blocks

  unfoldable pub reachable_blocks : Cfg F → Run (List Bool)
  reachable_blocks cfg =
      reach_loop (edges cfg.blocks + 1) cfg.blocks (none_reached cfg.blocks) (cfg.entry ∷ [])

  unfoldable pub remap_block : List ℕ → BasicBlock F → Run (BasicBlock F)
  remap_block ids block = do
    term ← elim block.terminator [
      | none ↦ done none
      | some t ↦ remap_targets ids t >>= λ t'. done (some t')
    ]
    handler ← elim block.handler [
      | none ↦ done none
      | some h ↦ or_panic (get_elem? ids h) >>= λ h'. done (some h')
    ]
    done (record block { terminator = term; handler = handler })

  unfoldable pub remap_blocks : List ℕ → List (BasicBlock F) → Run (List (BasicBlock F))
  remap_blocks ids [] = done []
  remap_blocks ids (block ∷ blocks) = do
    block' ← remap_block ids block
    rest ← remap_blocks ids blocks
    done (block' ∷ rest)

  -- `retain`.
  unfoldable pub retain : List Bool → List (BasicBlock F) → Run (List (BasicBlock F))
  retain reachable [] = done []
  retain reachable (block ∷ blocks) = do
    keep ← or_panic (get_elem? reachable block.id)
    rest ← retain reachable blocks
    done (if keep then block ∷ rest else rest)

  unfoldable pub renumber : ℕ → List (BasicBlock F) → List (BasicBlock F)
  renumber i [] = []
  renumber i (block ∷ blocks) = (record block { id = i }) ∷ renumber (suc i) blocks

  unfoldable pub remove_unreachable : Cfg F → Run (Cfg F)
  remove_unreachable cfg = do
    reachable ← reachable_blocks cfg
    blocks ← remap_blocks (new_ids 0 reachable) cfg.blocks
    kept ← retain reachable blocks
    done (record cfg { blocks = renumber 0 kept; entry = 0; preds_valid = false })

  -- `handler_targets`.
  unfoldable pub handler_targets : List (BasicBlock F) → List ℕ
  handler_targets [] = []
  handler_targets (block ∷ blocks) = elim block.handler [
    | none ↦ handler_targets blocks
    | some h ↦ h ∷ handler_targets blocks
  ]

  -- The target of a block that only goes on to another block.
  abbrev pub goto_target : ℕ → Option (Terminator F) → Option ℕ
  goto_target i (some (goto t)) = if t == i then none else some t
  goto_target i _ = none

  -- The tests of the inner loop at block `i`: where it is to be skipped, its target.
  unfoldable pub trivial_target : Cfg F → List ℕ → ℕ → BasicBlock F → List ℕ → Option ℕ
  trivial_target cfg targets i block preds =
      if i == cfg.entry
        || contains targets i
        || ltb 1 (length preds)
        || not (is_empty block.stmts)
        || is_some block.handler
      then none
      else goto_target i block.terminator

  abbrev pub replace_option : ℕ → ℕ → Option (Terminator F) → Option (Terminator F)
  replace_option old new none = none
  replace_option old new (some t) = some (replace_target old new t)

  unfoldable pub redirect : ℕ → ℕ → List (BasicBlock F) → List (BasicBlock F)
  redirect old new [] = []
  redirect old new (block ∷ blocks) =
      (record block {
        terminator = replace_option old new block.terminator;
        handler = replace_handler old new block.handler;
      })
      ∷ redirect old new blocks

  -- One round of the outer loop: the blocks from `i` on, `k` of them. `cfg` has the entry and the
  -- predecessors, which do not change; the result says whether a block was skipped.
  unfoldable pub collapse_round :
      Cfg F → List ℕ → ℕ → ℕ → List (BasicBlock F) → Run (List (BasicBlock F) × Bool)
  collapse_round cfg targets zero i blocks = done (blocks, false)
  collapse_round cfg targets (suc k) i blocks = do
    block ← or_panic (get_elem? blocks i)
    preds ← or_panic (get_elem? cfg.preds i)
    elim (trivial_target cfg targets i block preds) [
      | none ↦ collapse_round cfg targets k (suc i) blocks
      | some target ↦ do
        (blocks', changed) ← collapse_round cfg targets k (suc i) (redirect i target blocks)
        done (blocks', true)
    ]

  unfoldable pub collapse_loop :
      ℕ → Cfg F → List ℕ → List (BasicBlock F) → Run (List (BasicBlock F))
  collapse_loop zero cfg targets blocks = out_of_fuel
  collapse_loop (suc f) cfg targets blocks = do
    (blocks', changed) ← collapse_round cfg targets (length blocks) 0 blocks
    elim changed [ true ↦ collapse_loop f cfg targets blocks' | false ↦ done blocks' ]

  unfoldable pub collapse_trivial_gotos : ℕ → Cfg F → Run (Cfg F)
  collapse_trivial_gotos f cfg =
      if not cfg.preds_valid
      then panic
      else (collapse_loop f cfg (handler_targets cfg.blocks) cfg.blocks >>= λ blocks.
          done (record cfg { blocks = blocks; preds_valid = false }))

  -- `cleanup`, with `f` rounds of the loop in `collapse_trivial_gotos`.
  unfoldable pub cleanup : ℕ → Cfg F → Run (Cfg F)
  cleanup f cfg = do
    kept ← remove_unreachable cfg
    known ← compute_preds kept
    collapsed ← collapse_trivial_gotos f known
    compute_preds collapsed
