-- ===== src/Cfg/Build/Finish.antt =====
-- `finish` and `build_cfg` (src/cfg/build.rs).
use mx.Common.{false, Option, none, some, List, [], ◌∷◌}
use mx.Common.Runs.{Run, done, ◌>>=◌}
use mx.Hir.{HirStmts}
use mx.Cfg.{Terminator, return, BasicBlock, Cfg}
use mx.Cfg.Preds.{compute_preds}
use mx.Cfg.Verify.{verify}
use mx.Cfg.Build.{Builder, new}
use mx.Cfg.Build.Lower.{lower_stmts}

module _ {F : Type 0} where
  abbrev pub or_return : Option (Terminator F) → Terminator F
  or_return none = return none
  or_return (some t) = t

  -- The current block, if it is open, is one of the open blocks that are sealed here.
  unfoldable pub seal_all : List (BasicBlock F) → List (BasicBlock F)
  seal_all [] = []
  seal_all (block ∷ blocks) =
      (record block { terminator = some (or_return block.terminator) }) ∷ seal_all blocks

  unfoldable pub finish : Builder F → Run (Cfg F)
  finish b =
      compute_preds
        (record { blocks = seal_all b.blocks; entry = 0; preds = []; preds_valid = false })

  unfoldable pub build_cfg : HirStmts F → Run (Cfg F)
  build_cfg body = do b ← lower_stmts body new; cfg ← finish b; checked ← verify cfg; done cfg
