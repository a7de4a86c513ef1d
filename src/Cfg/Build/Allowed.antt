-- ===== src/Cfg/Build/Allowed.antt =====
-- The statements that the graph builder can be given (src/cfg/build.rs): EXIT is in a loop, CASE and
-- TYPECASE have branches and these have labels, and a clause for every exception is the last.
use mx.Common.{◌<◌, ◌≡◌, Bool, true}
use mx.Cfg.Build.Arms.{count_branches, count_type_branches, Labelled, TypeLabelled}
use mx.Cfg.Build.Dispatch.{CatchAllLast}
use mx.Hir
use mx.Hir.{
  HirStmt, stmt, HirStmtKind, empty, exit, retry, assign, proc_call, if_stmt, case_stmt, while_stmt,
  repeat_stmt, for_stmt, loop_stmt, return_stmt, raise_stmt, try_stmt, lock_stmt, typecase_stmt,
  HirStmts, end, seq, Elsifs, no_elsif, elsif, ElseBody, no_else, else_body, HirCaseBranches,
  no_branch, HirTypeCaseBranches, no_type_branch, type_branch, HirExceptClauses, no_except,
  except_clause,
}

module _ {F : Type 0} where
  unfoldable mutual
    -- The first argument says whether there is a loop around the statements.
    pub Allowed : Bool → HirStmts F → Type 0
    Allowed l end = Unit
    Allowed l (seq s ss) = AllowedStmt l s × Allowed l ss

    pub AllowedStmt : Bool → HirStmt F → Type 0
    AllowedStmt l (stmt kind loc) = AllowedKind l kind

    pub AllowedKind : Bool → HirStmtKind F → Type 0
    AllowedKind l (if_stmt cond then_body elsifs els) =
        Allowed l then_body × (AllowedElsifs l elsifs × AllowedElse l els)
    AllowedKind l (while_stmt cond body) = Allowed true body
    AllowedKind l (loop_stmt body) = Allowed true body
    AllowedKind l exit = l ≡ true
    AllowedKind l (repeat_stmt body cond) = Allowed true body
    AllowedKind l (for_stmt var ty start limit step direction body) = Allowed true body
    AllowedKind l (case_stmt value branches els) =
        (0 < count_branches branches)
        × (Labelled branches × (AllowedBranches l branches × AllowedElse l els))
    AllowedKind l (typecase_stmt value branches els) =
        (0 < count_type_branches branches)
        × (TypeLabelled branches × (AllowedTypeBranches l branches × AllowedElse l els))
    AllowedKind l (try_stmt body excepts finally_body) =
        CatchAllLast excepts × (Allowed l body × AllowedExcepts l excepts)
    AllowedKind l (lock_stmt mutex body) = Allowed l body
    AllowedKind l _ = Unit

    pub AllowedElsifs : Bool → Elsifs F → Type 0
    AllowedElsifs l no_elsif = Unit
    AllowedElsifs l (elsif cond body rest) = Allowed l body × AllowedElsifs l rest

    pub AllowedElse : Bool → ElseBody F → Type 0
    AllowedElse l no_else = Unit
    AllowedElse l (else_body body) = Allowed l body

    pub AllowedBranches : Bool → HirCaseBranches F → Type 0
    AllowedBranches l no_branch = Unit
    AllowedBranches l (Hir.branch labels body rest) = Allowed l body × AllowedBranches l rest

    pub AllowedTypeBranches : Bool → HirTypeCaseBranches F → Type 0
    AllowedTypeBranches l no_type_branch = Unit
    AllowedTypeBranches l (type_branch types var body rest) =
        Allowed l body × AllowedTypeBranches l rest

    pub AllowedExcepts : Bool → HirExceptClauses F → Type 0
    AllowedExcepts l no_except = Unit
    AllowedExcepts l (except_clause e v body rest) = Allowed l body × AllowedExcepts l rest
