-- ===== src/Cfg/Build/Parts.antt =====
-- The parts of statements that are lowered by themselves (src/cfg/build.rs).
use mx.Common.{ℕ, Bool, true, false, Text, Option, none, some, List, [], ◌∷◌, map}
use mx.Common.Runs.{Run, done, panic, ◌>>=◌}
use mx.Types.Registry.{ty_address}
use mx.Hir
use mx.Hir.{
  HirExpr, ForDirection, add, HirStmt, stmt, HirStmtKind, empty, exit, retry, assign, proc_call,
  if_stmt, case_stmt, while_stmt, repeat_stmt, for_stmt, loop_stmt, return_stmt, raise_stmt,
  try_stmt, lock_stmt, typecase_stmt, HirStmts, end, seq, Elsifs, no_elsif, elsif, ElseBody,
  no_else, else_body, HirCaseBranches, no_branch, HirTypeCaseBranches, no_type_branch, type_branch,
  HirExceptClauses, no_except, except_clause, HirCaseLabel, SymbolId,
}
use mx.Cfg.{goto, branch, raise, SwitchArm, CaseLabel, single, range, type_label}
use mx.Cfg.Build.{
  Builder, new_block, new_block_no_handler, start_block, seal, push_stmts, goto_if_open,
  start_if_reached, push_exit, pop_exit, push_handler, pop_handler,
}
use mx.Cfg.Build.Exprs.{
  lower_expr_as_branch, push_assign, make_binop, for_op, for_step, exception_test,
}

module _ {F : Type 0} where
  abbrev pub has_elsif : Elsifs F → Bool
  has_elsif no_elsif = false
  has_elsif (elsif c body rest) = true

  abbrev pub has_else : ElseBody F → Bool
  has_else no_else = false
  has_else (else_body body) = true

  abbrev pub has_except : HirExceptClauses F → Bool
  has_except no_except = false
  has_except (except_clause e v body rest) = true

  -- A block of its own, or the block where the statement ends.
  abbrev pub block_or : Bool → ℕ → Builder F → Builder F × ℕ
  block_or true merge b = new_block b
  block_or false merge b = (b, merge)

  abbrev pub case_label : HirCaseLabel F → CaseLabel F
  case_label (Hir.single e) = single e
  case_label (Hir.range lo hi) = range lo hi

  -- A block and an arm for each branch.
  unfoldable pub case_arms : HirCaseBranches F → Builder F → Builder F × List (SwitchArm F)
  case_arms no_branch b = (b, [])
  case_arms (Hir.branch labels body rest) b =
      let (b1, target) = new_block b in
      let (b2, arms) = case_arms rest b1 in
      (b2, record { labels = map case_label labels; target = target } ∷ arms)

  unfoldable pub typecase_arms : HirTypeCaseBranches F → Builder F → Builder F × List (SwitchArm F)
  typecase_arms no_type_branch b = (b, [])
  typecase_arms (type_branch types var body rest) b =
      let (b1, target) = new_block b in
      let (b2, arms) = typecase_arms rest b1 in
      (b2, record { labels = map (λ sid. type_label sid var) types; target = target } ∷ arms)

  -- The variable of a TYPECASE branch takes the value.
  abbrev pub bind_variable : Option Text → HirExpr F → Builder F → Run (Builder F)
  bind_variable none value b = done b
  bind_variable (some var) value b = push_assign var ty_address value b

  unfoldable pub handler_blocks : HirExceptClauses F → Builder F → Builder F × List ℕ
  handler_blocks no_except b = (b, [])
  handler_blocks (except_clause e v body rest) b =
      let (b1, h) = new_block_no_handler b in let (b2, hs) = handler_blocks rest b1 in (b2, h ∷ hs)

  -- The chain of tests of the exception; `handlers` has a block for each clause.
  unfoldable pub dispatch : HirExceptClauses F → List ℕ → ℕ → Builder F → Run (Builder F)
  dispatch no_except handlers reraise b = done b
  dispatch (except_clause e v body rest) [] reraise b = panic
  dispatch (except_clause none v body rest) (h ∷ handlers) reraise b = do
    b1 ← seal (goto h) b
    dispatch rest handlers reraise b1
  dispatch (except_clause (some sym) v body rest) (h ∷ handlers) reraise b =
      elim (has_except rest) [
        | true ↦ do
          (b1, next) ← done (new_block_no_handler b)
          b2 ← seal (branch (exception_test sym) h next) b1
          b3 ← start_block next b2
          dispatch rest handlers reraise b3
        | false ↦ do
          b1 ← seal (branch (exception_test sym) h reraise) b
          dispatch rest handlers reraise b1
      ]

  -- The finally body on the way to the next handler.
  abbrev pub push_finally : ElseBody F → Builder F → Run (Builder F)
  push_finally no_else b = done b
  push_finally (else_body body) b = push_stmts body b

  -- A body in a block of its own, which goes on to `target` where it is still open; `lower` is the
  -- lowering of the body.
  unfoldable pub lower_part : (Builder F → Run (Builder F)) → ℕ → ℕ → Builder F → Run (Builder F)
  lower_part lower block target b = do
    b1 ← start_block block b
    b2 ← lower b1
    goto_if_open target b2

  -- The finally body on the normal path.
  unfoldable pub lower_finally : ElseBody F → ℕ → ℕ → Builder F → Run (Builder F)
  lower_finally no_else finally_normal merge b = done b
  lower_finally (else_body body) finally_normal merge b =
      lower_part (push_stmts body) finally_normal merge b

  -- The test behind the body of REPEAT, where the body's end is reached.
  abbrev pub test_if_open : HirExpr F → ℕ → ℕ → Builder F → Run (Builder F)
  test_if_open cond exit_block body_block b = elim b.current [
    | none ↦ done b
    | some c ↦ lower_expr_as_branch cond exit_block body_block b
  ]

  -- The body of REPEAT and its test; `lower` is the lowering of the body.
  unfoldable pub lower_tested :
      (Builder F → Run (Builder F)) → HirExpr F → ℕ → ℕ → Builder F → Run (Builder F)
  lower_tested lower cond exit_block body_block b = do
    b1 ← start_block body_block b
    b2 ← lower b1
    test_if_open cond exit_block body_block b2

  -- A condition and the body behind it, with the block where the condition is false: that one is `merge`
  -- where nothing else follows. `lower` is the lowering of the body.
  unfoldable pub lower_arm :
      (Builder F → Run (Builder F)) → HirExpr F → Bool → ℕ → Builder F → Run (Builder F × ℕ)
  lower_arm lower cond more merge b = do
    (b1, then_block) ← done (new_block b)
    (b2, false_block) ← done (block_or more merge b1)
    b3 ← lower_expr_as_branch cond then_block false_block b2
    b4 ← lower_part lower then_block merge b3
    done (b4, false_block)

  -- The step of FOR behind its body.
  unfoldable pub lower_latch : Text → ℕ → HirExpr F → ℕ → ℕ → Builder F → Run (Builder F)
  lower_latch var ty value latch cond_block b = do
    b1 ← start_block latch b
    b2 ← push_assign var ty value b1
    seal (goto cond_block) b2

  -- FOR behind its blocks.
  unfoldable pub lower_rounds :
      Text
      → ℕ
      → HirExpr F
      → Option (HirExpr F)
      → ForDirection
      → (Builder F → Run (Builder F))
      → ℕ
      → ℕ
      → ℕ
      → ℕ
      → Builder F
      → Run (Builder F)
  lower_rounds var ty limit step direction lower cond_block body_block latch exit_block b = do
    b1 ← seal (goto cond_block) b
    b2 ← start_block cond_block b1
    b3 ← seal (branch (make_binop (for_op direction) var ty limit) body_block exit_block) b2
    b4 ← lower_part lower body_block latch (push_exit exit_block b3)
    b5 ←
        lower_latch var ty (make_binop add var ty (for_step step direction ty)) latch cond_block
          (pop_exit b4)
    start_block exit_block b5

  -- FOR behind its first assignment; `lower` is the lowering of the body.
  unfoldable pub lower_for :
      Text
      → ℕ
      → HirExpr F
      → Option (HirExpr F)
      → ForDirection
      → (Builder F → Run (Builder F))
      → Builder F
      → Run (Builder F)
  lower_for var ty limit step direction lower b = do
    (b1, cond_block) ← done (new_block b)
    (b2, body_block) ← done (new_block b1)
    (b3, latch) ← done (new_block b2)
    (b4, exit_block) ← done (new_block b3)
    lower_rounds var ty limit step direction lower cond_block body_block latch exit_block b4

  -- The end of a catch: the exception goes on.
  unfoldable pub reraise_after : ElseBody F → Builder F → Run (Builder F)
  reraise_after finally_body b = do b1 ← push_finally finally_body b; seal (raise none) b1

  -- The catch block and what is behind it; `lower` is the lowering of the handlers' bodies.
  unfoldable pub lower_catch :
      HirExceptClauses F
      → ElseBody F
      → (List ℕ → Builder F → Run (Builder F))
      → Builder F
      → Run (Builder F)
  lower_catch no_except finally_body lower b = reraise_after finally_body b
  lower_catch (except_clause e v body rest) finally_body lower b = do
    (b1, reraise) ← done (new_block_no_handler b)
    (b2, handlers) ← done (handler_blocks (except_clause e v body rest) b1)
    b3 ← dispatch (except_clause e v body rest) handlers reraise b2
    b4 ← lower handlers b3
    b5 ← start_block reraise b4
    reraise_after finally_body b5

  -- The body of TRY in a block of its own, with its handler; `lower` is the lowering of the body.
  unfoldable pub lower_protected :
      (Builder F → Run (Builder F)) → ℕ → ℕ → Builder F → Run (Builder F)
  lower_protected lower catch_block finally_normal b = do
    (b1, try_body) ← done (new_block (push_handler catch_block b))
    b2 ← goto_if_open try_body b1
    b3 ← start_block try_body b2
    b4 ← lower b3
    goto_if_open finally_normal (pop_handler b4)

  -- TRY behind its first blocks; `catch` lowers what is behind `catch_block`.
  unfoldable pub lower_try :
      (Builder F → Run (Builder F))
      → (Builder F → Run (Builder F))
      → ElseBody F
      → ℕ
      → ℕ
      → ℕ
      → Builder F
      → Run (Builder F)
  lower_try lower catch finally_body merge catch_block finally_normal b = do
    b1 ← lower_protected lower catch_block finally_normal b
    b2 ← start_block catch_block b1
    b3 ← catch b2
    b4 ← lower_finally finally_body finally_normal merge b3
    start_if_reached merge b4
