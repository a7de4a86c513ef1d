-- ===== src/Cfg/Build/Lower.antt =====
-- The lowering of statements (src/cfg/build.rs).
use mx.Common.{ℕ, Bool, ◌||◌, codes, none, some, List, [], ◌∷◌}
use mx.Common.Runs.{Run, done, panic, ◌>>=◌, or_panic}
use mx.Symtab.{SourceLoc}
use mx.Hir
use mx.Hir.{
  HirExpr, ForDirection, add, HirStmt, stmt, HirStmtKind, empty, exit, retry, assign, proc_call,
  if_stmt, case_stmt, while_stmt, repeat_stmt, for_stmt, loop_stmt, return_stmt, raise_stmt,
  try_stmt, lock_stmt, typecase_stmt, HirStmts, end, seq, Elsifs, no_elsif, elsif, ElseBody,
  no_else, else_body, HirCaseBranches, no_branch, HirTypeCaseBranches, no_type_branch, type_branch,
  HirExceptClauses, no_except, except_clause, HirCaseLabel, SymbolId,
}
use mx.Cfg.{goto, switch, return, raise, SwitchArm}
use mx.Cfg.Build.{
  Builder, top, new_block, new_block_no_handler, start_block, seal, push_stmt, start_if_reached,
  push_exit, pop_exit,
}
use mx.Cfg.Build.Exprs.{lower_expr_as_branch, push_assign, mutex_call}
use mx.Cfg.Build.Parts.{
  has_elsif, has_else, block_or, case_arms, typecase_arms, bind_variable, lower_part, lower_tested,
  lower_arm, lower_for, lower_catch, lower_try,
}

module _ {F : Type 0} where
  unfoldable mutual
    pub lower_stmts : HirStmts F → Builder F → Run (Builder F)
    lower_stmts end b = done b
    lower_stmts (seq s ss) b = do b1 ← lower_stmt s b; lower_stmts ss b1

    pub lower_stmt : HirStmt F → Builder F → Run (Builder F)
    lower_stmt (stmt kind loc) b = elim b.current [ none ↦ done b | some c ↦ lower_kind kind loc b ]

    pub lower_kind : HirStmtKind F → SourceLoc → Builder F → Run (Builder F)
    lower_kind empty loc b = done b
    lower_kind (assign target value) loc b = push_stmt (stmt (assign target value) loc) b
    lower_kind (proc_call target args) loc b = push_stmt (stmt (proc_call target args) loc) b
    lower_kind (if_stmt cond then_body elsifs els) loc b = do
      (b1, merge) ← done (new_block b)
      (b2, first_false) ←
          lower_arm (lower_stmts then_body) cond (has_elsif elsifs || has_else els) merge b1
      (b3, last_false) ← lower_elsifs elsifs (has_else els) merge first_false b2
      b4 ← lower_else els last_false merge b3
      start_if_reached merge b4
    lower_kind (while_stmt cond body) loc b = do
      (b1, header) ← done (new_block b)
      (b2, body_block) ← done (new_block b1)
      (b3, exit_block) ← done (new_block b2)
      b4 ← seal (goto header) b3
      b5 ← start_block header b4
      b6 ← lower_expr_as_branch cond body_block exit_block b5
      b7 ← lower_part (lower_stmts body) body_block header (push_exit exit_block b6)
      start_block exit_block (pop_exit b7)
    lower_kind (loop_stmt body) loc b = do
      (b1, header) ← done (new_block b)
      (b2, exit_block) ← done (new_block b1)
      b3 ← seal (goto header) b2
      b4 ← lower_part (lower_stmts body) header header (push_exit exit_block b3)
      start_block exit_block (pop_exit b4)
    lower_kind exit loc b = do target ← or_panic (top b.loop_exit_stack); seal (goto target) b
    lower_kind (repeat_stmt body cond) loc b = do
      (b1, body_block) ← done (new_block b)
      (b2, exit_block) ← done (new_block b1)
      b3 ← seal (goto body_block) b2
      b4 ← lower_tested (lower_stmts body) cond exit_block body_block (push_exit exit_block b3)
      start_block exit_block (pop_exit b4)
    lower_kind (for_stmt var var_ty start limit step direction body) loc b = do
      b1 ← push_assign var var_ty start b
      lower_for var var_ty limit step direction (lower_stmts body) b1
    lower_kind (case_stmt value branches els) loc b = do
      (b1, merge) ← done (new_block b)
      (b2, default_block) ← done (new_block b1)
      (b3, arms) ← done (case_arms branches b2)
      b4 ← seal (switch value arms default_block) b3
      b5 ← lower_branches branches arms merge b4
      b6 ← lower_default els default_block merge b5
      start_if_reached merge b6
    lower_kind (typecase_stmt value branches els) loc b = do
      (b1, merge) ← done (new_block b)
      (b2, default_block) ← done (new_block b1)
      (b3, arms) ← done (typecase_arms branches b2)
      b4 ← seal (switch value arms default_block) b3
      b5 ← lower_type_branches branches value arms merge b4
      b6 ← lower_default els default_block merge b5
      start_if_reached merge b6
    lower_kind (try_stmt body excepts finally_body) loc b = do
      (b1, merge) ← done (new_block b)
      (b2, catch_block) ← done (new_block_no_handler b1)
      (b3, finally_normal) ← done (block_or (has_else finally_body) merge b2)
      lower_try (lower_stmts body)
          (lower_catch excepts finally_body (lower_handlers excepts finally_normal)) finally_body
          merge catch_block finally_normal b3
    lower_kind (raise_stmt value) loc b = seal (raise value) b
    lower_kind retry loc b = push_stmt (stmt retry loc) b
    lower_kind (lock_stmt mutex body) loc b = do
      b1 ← push_stmt (mutex_call (codes "m2_Mutex_Lock") (codes "Lock") mutex loc) b
      b2 ← lower_stmts body b1
      push_stmt (mutex_call (codes "m2_Mutex_Unlock") (codes "Unlock") mutex loc) b2
    lower_kind (return_stmt value) loc b = seal (return value) b

    pub lower_elsifs : Elsifs F → Bool → ℕ → ℕ → Builder F → Run (Builder F × ℕ)
    lower_elsifs no_elsif last merge current_false b = done (b, current_false)
    lower_elsifs (elsif cond body rest) last merge current_false b = do
      b1 ← start_block current_false b
      (b2, elsif_false) ← lower_arm (lower_stmts body) cond (has_elsif rest || last) merge b1
      lower_elsifs rest last merge elsif_false b2

    pub lower_else : ElseBody F → ℕ → ℕ → Builder F → Run (Builder F)
    lower_else no_else block merge b = done b
    lower_else (else_body body) block merge b = lower_part (lower_stmts body) block merge b

    -- The ELSE of CASE has a block also where it is left out.
    pub lower_default : ElseBody F → ℕ → ℕ → Builder F → Run (Builder F)
    lower_default no_else block merge b = lower_part done block merge b
    lower_default (else_body body) block merge b = lower_part (lower_stmts body) block merge b

    pub lower_branches : HirCaseBranches F → List (SwitchArm F) → ℕ → Builder F → Run (Builder F)
    lower_branches no_branch arms merge b = done b
    lower_branches (Hir.branch labels body rest) [] merge b = panic
    lower_branches (Hir.branch labels body rest) (arm ∷ arms) merge b = do
      b1 ← lower_part (lower_stmts body) arm.target merge b
      lower_branches rest arms merge b1

    pub lower_type_branches :
        HirTypeCaseBranches F → HirExpr F → List (SwitchArm F) → ℕ → Builder F → Run (Builder F)
    lower_type_branches no_type_branch value arms merge b = done b
    lower_type_branches (type_branch types var body rest) value [] merge b = panic
    lower_type_branches (type_branch types var body rest) value (arm ∷ arms) merge b = do
      b1 ← lower_part (λ b'. bind_variable var value b' >>= lower_stmts body) arm.target merge b
      lower_type_branches rest value arms merge b1

    pub lower_handlers : HirExceptClauses F → ℕ → List ℕ → Builder F → Run (Builder F)
    lower_handlers no_except finally_normal handlers b = done b
    lower_handlers (except_clause e v body rest) finally_normal [] b = panic
    lower_handlers (except_clause e v body rest) finally_normal (h ∷ handlers) b = do
      b1 ← lower_part (lower_stmts body) h finally_normal b
      lower_handlers rest finally_normal handlers b1
