-- ===== src/Cfg/Build.antt =====
-- `CfgBuilder` (src/cfg/build.rs): the blocks under construction. The debug assertions panic.
pub mod Exprs
pub mod Inv
pub mod Blocks
pub mod Steps
pub mod Branches
pub mod Parts
pub mod Lower
pub mod Sound
pub mod Rounds
pub mod Loops
pub mod Conditional
pub mod Choices
pub mod Arms
pub mod CaseBodies
pub mod Cases
pub mod Dispatch
pub mod Catch
pub mod Tries
pub mod Allowed
pub mod Whole
pub mod Misplaced
pub mod Unreached
pub mod Verified
pub mod Conditions
pub mod Finish
use mx.Common.{
  ℕ, Bool, true, false, ◌||◌, not, Option, none, some, List, [], ◌∷◌, ◌++◌, get_elem?, set, length,
}
use mx.Common.Runs.{Run, done, panic, ◌>>=◌, ◌>>◌, assert, or_panic}
use mx.Hir.{HirStmt, HirStmts, end, seq}
use mx.Cfg.{Terminator, goto, BasicBlock, contains, is_some, block_successors}

-- The stacks have their tops first.
pub record Builder (F : Type 0) : Type 0 where
  pub blocks : List (BasicBlock F)
  pub current : Option ℕ
  pub loop_exit_stack : List ℕ
  pub handler_stack : List ℕ

abbrev pub top : List ℕ → Option ℕ
top [] = none
top (x ∷ xs) = some x

abbrev pub popped : List ℕ → List ℕ
popped [] = []
popped (x ∷ xs) = xs

module _ {F : Type 0} where
  abbrev pub open_block : ℕ → Option ℕ → BasicBlock F
  open_block id handler = record { id = id; stmts = []; terminator = none; handler = handler }

  unfoldable pub new : Builder F
  new = record {
    blocks = open_block 0 none ∷ [];
    current = some 0;
    loop_exit_stack = [];
    handler_stack = [];
  }

  abbrev pub add_block : Option ℕ → Builder F → Builder F × ℕ
  add_block handler b =
      (record b { blocks = b.blocks ++ open_block (length b.blocks) handler ∷ [] }, length b.blocks)

  unfoldable pub new_block : Builder F → Builder F × ℕ
  new_block b = add_block (top b.handler_stack) b

  unfoldable pub new_block_no_handler : Builder F → Builder F × ℕ
  new_block_no_handler b = add_block none b

  unfoldable pub start_block : ℕ → Builder F → Run (Builder F)
  start_block id b = do
    assert (not (is_some b.current))
    block ← or_panic (get_elem? b.blocks id)
    assert (not (is_some block.terminator))
    done (record b { current = some id })

  unfoldable pub seal : Terminator F → Builder F → Run (Builder F)
  seal t b = do
    id ← or_panic b.current
    block ← or_panic (get_elem? b.blocks id)
    assert (not (is_some block.terminator))
    done (record b {
      blocks = set b.blocks id (record block { terminator = some t });
      current = none;
    })

  unfoldable pub push_stmt : HirStmt F → Builder F → Run (Builder F)
  push_stmt s b = elim b.current [
    | none ↦ done b
    | some id ↦ or_panic (get_elem? b.blocks id) >>= λ block.
        done
          (record b { blocks = set b.blocks id (record block { stmts = block.stmts ++ s ∷ [] }) })
  ]

  -- `for s in fb { self.push_stmt(s.clone()); }`
  unfoldable pub push_stmts : HirStmts F → Builder F → Run (Builder F)
  push_stmts end b = done b
  push_stmts (seq s ss) b = do b' ← push_stmt s b; push_stmts ss b'

  abbrev pub is_open : Builder F → Bool
  is_open b = is_some b.current

  abbrev pub reaches : ℕ → List (BasicBlock F) → Bool
  reaches target [] = false
  reaches target (block ∷ blocks) =
      contains (block_successors block.terminator) target || reaches target blocks

  unfoldable pub any_path_reaches : ℕ → Builder F → Bool
  any_path_reaches target b = reaches target b.blocks

  -- `if self.is_open() { self.seal(Terminator::Goto(target)); }`
  unfoldable pub goto_if_open : ℕ → Builder F → Run (Builder F)
  goto_if_open target b = elim b.current [ none ↦ done b | some id ↦ seal (goto target) b ]

  -- `if self.any_path_reaches(merge) { self.start_block(merge); }`
  unfoldable pub start_if_reached : ℕ → Builder F → Run (Builder F)
  start_if_reached merge b = elim (any_path_reaches merge b) [
    | true ↦ start_block merge b
    | false ↦ done b
  ]

  abbrev pub push_exit : ℕ → Builder F → Builder F
  push_exit exit b = record b { loop_exit_stack = exit ∷ b.loop_exit_stack }

  abbrev pub pop_exit : Builder F → Builder F
  pop_exit b = record b { loop_exit_stack = popped b.loop_exit_stack }

  abbrev pub push_handler : ℕ → Builder F → Builder F
  push_handler h b = record b { handler_stack = h ∷ b.handler_stack }

  abbrev pub pop_handler : Builder F → Builder F
  pop_handler b = record b { handler_stack = popped b.handler_stack }
