-- ===== src/Cfg/Build/Whole.antt =====
-- Every allowed body lowers soundly (src/cfg/build.rs).
use mx.Common.{
  ℕ, ◌<◌, ◌≡◌, refl, ap, ◌∙◌, Bool, true, false, codes, none, some, List, [], ◌∷◌, ◌++◌, arith,
  length, get_elem?, set,
}
use mx.Common.Runs.{done, ◌>>=◌, or_panic}
use mx.Symtab.{SourceLoc}
use mx.Hir
use mx.Hir.{
  HirExpr, HirStmt, stmt, HirStmtKind, empty, exit, retry, assign, proc_call, if_stmt, case_stmt,
  while_stmt, repeat_stmt, for_stmt, loop_stmt, return_stmt, raise_stmt, try_stmt, lock_stmt,
  typecase_stmt, HirStmts, end, seq, Elsifs, no_elsif, elsif, ElseBody, no_else, else_body,
  HirCaseBranches, no_branch, HirTypeCaseBranches, no_type_branch, type_branch, HirExceptClauses,
  no_except, except_clause,
}
use mx.Cfg.{Terminator, goto, return, raise, successors}
use mx.Cfg.Verify.{arms_present}
use mx.Cfg.Build.{Builder, top, seal, push_stmt}
use mx.Cfg.Build.Exprs.{mutex_call}
use mx.Cfg.Build.Lower.{lower_stmts, lower_stmt, lower_kind}
use mx.Cfg.Build.Inv.{Fits, AllFit, Open}
use mx.Cfg.Build.Blocks.{none_case, some_case, IsValid, Lowers}
use mx.Cfg.Build.Steps.{Keeps-Lowers, push_stmt-Keeps, seal-Closes}
use mx.Cfg.Build.Sound.{Sound, InLoop, InLoop-eq, Lowers-behind, Closes-Lowers, Sound-then}
use mx.Cfg.Build.Loops.{while-Sound, loop-Sound, repeat-Sound}
use mx.Cfg.Build.Rounds.{for-Sound}
use mx.Cfg.Build.Choices.{ElsifsSound, ElseSound, if-Sound}
use mx.Cfg.Build.CaseBodies.{BranchesSound, TypeBranchesSound, done-Sound}
use mx.Cfg.Build.Cases.{case-Sound, typecase-Sound}
use mx.Cfg.Build.Dispatch.{ExceptsSound}
use mx.Cfg.Build.Tries.{try-Sound}
use mx.Cfg.Build.Allowed.{
  Allowed, AllowedStmt, AllowedKind, AllowedElsifs, AllowedElse, AllowedBranches,
  AllowedTypeBranches, AllowedExcepts,
}

top-Fits :
    (n : ℕ) (ls : List ℕ) → 0 < length ls → AllFit n ls → (t : ℕ) × ((top ls ≡ some t) × Fits n t)
top-Fits n [] pos h = absurd (omega (arith, pos))
top-Fits n (l ∷ ls) pos h = (l, (refl, h.0))

module _ {F : Type 0} where
  -- Behind a statement that leaves no block open, nothing is lowered: the state stays as it is, whatever the
  -- statements.
  pub lower_stmts-idle :
      (ss : HirStmts F) (b : Builder F) → b.current ≡ none → lower_stmts ss b ≡ done b
  unfolding lower_stmts lower_stmt
  lower_stmts-idle end b at = refl
  lower_stmts-idle (seq (stmt kind loc) ss) b at =
      ap (λ r. r >>= lower_stmts ss) (none_case b.current (done b) (λ c. lower_kind kind loc b) at)
      ∙ lower_stmts-idle ss b at

  empty-Sound : (l : Bool) (loc : SourceLoc) → Sound {F = F} l (lower_kind empty loc)
  unfolding lower_kind
  empty-Sound l loc = done-Sound l

  push_stmt-Sound : (l : Bool) (s : HirStmt F) → Sound l (push_stmt s)
  push_stmt-Sound l s c b v loop at o = Keeps-Lowers (push_stmt-Keeps s c b v at o)

  leave-Sound :
      (l : Bool) (t : Terminator F)
      → successors t ≡ []
      → arms_present (some t) ≡ true
      → Sound l (seal t)
  leave-Sound l t none_next arms c b v loop at o =
      Closes-Lowers (seal-Closes t c b v at o (rw none_next tt) arms)

  exit-Sound : (l : Bool) (loc : SourceLoc) → l ≡ true → Sound {F = F} l (lower_kind exit loc)
  unfolding lower_kind successors arms_present
  exit-Sound false loc e c b v loop at o = cc
  exit-Sound true loc e c b v loop at o =
      let (t, (is_top, fit)) = top-Fits (length b.blocks) b.loop_exit_stack loop v.exits_fit in
      let s = seal-Closes (goto t) c b v at o (fit, tt) refl in
      Closes-Lowers (record {
        after = s.after;
        runs = rw is_top s.runs;
        valid = s.valid;
        grows = s.grows;
        closed = s.closed;
        loops = s.loops;
        handlers = s.handlers;
      })

  push_stmt-idle : (s : HirStmt F) (b : Builder F) → b.current ≡ none → push_stmt s b ≡ done b
  unfolding push_stmt
  push_stmt-idle s b at =
      none_case b.current (done b)
        (λ id. or_panic (get_elem? b.blocks id) >>= λ block.
          done (record b {
            blocks = set b.blocks id (record block { stmts = block.stmts ++ s ∷ [] });
          }))
        at

  lock-Sound :
      (l : Bool) (mutex : HirExpr F) (body : HirStmts F) (loc : SourceLoc)
      → Sound l (lower_stmts body)
      → Sound l (lower_kind (lock_stmt mutex body) loc)
  unfolding lower_kind
  lock-Sound l mutex body loc sound c b v loop at o =
      let unlock = mutex_call (codes "m2_Mutex_Unlock") (codes "Unlock") mutex loc in
      let k =
        push_stmt-Keeps (mutex_call (codes "m2_Mutex_Lock") (codes "Lock") mutex loc) c b v at o in
      Lowers-behind k
        (Sound-then l (lower_stmts body) (push_stmt unlock) sound (push_stmt-idle unlock)
          (push_stmt-Sound l unlock) c k.after k.valid (InLoop-eq l k.loops loop) k.current
          k.opened)
        (rw k.runs refl)

  mutual
    unfolding lower_stmts lower_stmt Allowed AllowedStmt AllowedKind AllowedElsifs AllowedElse
        AllowedBranches AllowedTypeBranches AllowedExcepts ElsifsSound ElseSound BranchesSound
        TypeBranchesSound ExceptsSound lower_kind successors arms_present

    pub lower_stmts-Sound : (l : Bool) (ss : HirStmts F) → Allowed l ss → Sound l (lower_stmts ss)
    lower_stmts-Sound l end h = done-Sound l
    lower_stmts-Sound l (seq s ss) h =
        Sound-then l (lower_stmt s) (lower_stmts ss) (lower_stmt-Sound l s h.0)
          (lower_stmts-idle ss) (lower_stmts-Sound l ss h.1)

    lower_stmt-Sound : (l : Bool) (s : HirStmt F) → AllowedStmt l s → Sound l (lower_stmt s)
    lower_stmt-Sound l (stmt kind loc) h c b v loop at o =
        let s = lower_kind-Sound l kind loc h c b v loop at o in
        record {
          after = s.after;
          runs = some_case b.current (done b) (lower_kind kind loc b) at ∙ s.runs;
          valid = s.valid;
          grows = s.grows;
          now = s.now;
          loops = s.loops;
          handlers = s.handlers;
        }

    lower_kind-Sound :
        (l : Bool) (kind : HirStmtKind F) (loc : SourceLoc)
        → AllowedKind l kind
        → Sound l (lower_kind kind loc)
    lower_kind-Sound l empty loc h = empty-Sound l loc
    lower_kind-Sound l (assign target value) loc h =
        push_stmt-Sound l (stmt (assign target value) loc)
    lower_kind-Sound l (proc_call target args) loc h =
        push_stmt-Sound l (stmt (proc_call target args) loc)
    lower_kind-Sound l (if_stmt cond then_body elsifs els) loc h =
        if-Sound l cond then_body elsifs els loc (lower_stmts-Sound l then_body h.0)
          (elsifs-Sound l elsifs h.1.0) (else-Sound l els h.1.1)
    lower_kind-Sound l (while_stmt cond body) loc h =
        while-Sound l cond body loc (lower_stmts-Sound true body h)
    lower_kind-Sound l (loop_stmt body) loc h =
        loop-Sound l body loc (lower_stmts-Sound true body h)
    lower_kind-Sound l exit loc h = exit-Sound l loc h
    lower_kind-Sound l (repeat_stmt body cond) loc h =
        repeat-Sound l body cond loc (lower_stmts-Sound true body h)
    lower_kind-Sound l (for_stmt var ty start limit step direction body) loc h =
        for-Sound l var ty start limit step direction body loc (lower_stmts-Sound true body h)
    lower_kind-Sound l (case_stmt value branches els) loc h =
        case-Sound l value branches els loc h.0 h.1.0 (branches-Sound l branches h.1.1.0)
          (else-Sound l els h.1.1.1)
    lower_kind-Sound l (typecase_stmt value branches els) loc h =
        typecase-Sound l value branches els loc h.0 h.1.0 (type_branches-Sound l branches h.1.1.0)
          (else-Sound l els h.1.1.1)
    lower_kind-Sound l (try_stmt body excepts finally_body) loc h =
        try-Sound l body excepts finally_body loc h.0 (lower_stmts-Sound l body h.1.0)
          (excepts-Sound l excepts h.1.1)
    lower_kind-Sound l (raise_stmt value) loc h = leave-Sound l (raise value) refl refl
    lower_kind-Sound l retry loc h = push_stmt-Sound l (stmt retry loc)
    lower_kind-Sound l (lock_stmt mutex body) loc h =
        lock-Sound l mutex body loc (lower_stmts-Sound l body h)
    lower_kind-Sound l (return_stmt value) loc h = leave-Sound l (return value) refl refl

    elsifs-Sound : (l : Bool) (elsifs : Elsifs F) → AllowedElsifs l elsifs → ElsifsSound l elsifs
    elsifs-Sound l no_elsif h = tt
    elsifs-Sound l (elsif cond body rest) h =
        (lower_stmts-Sound l body h.0, elsifs-Sound l rest h.1)

    else-Sound : (l : Bool) (els : ElseBody F) → AllowedElse l els → ElseSound l els
    else-Sound l no_else h = tt
    else-Sound l (else_body body) h = lower_stmts-Sound l body h

    branches-Sound :
        (l : Bool) (branches : HirCaseBranches F)
        → AllowedBranches l branches
        → BranchesSound l branches
    branches-Sound l no_branch h = tt
    branches-Sound l (Hir.branch labels body rest) h =
        (lower_stmts-Sound l body h.0, branches-Sound l rest h.1)

    type_branches-Sound :
        (l : Bool) (branches : HirTypeCaseBranches F)
        → AllowedTypeBranches l branches
        → TypeBranchesSound l branches
    type_branches-Sound l no_type_branch h = tt
    type_branches-Sound l (type_branch types var body rest) h =
        (lower_stmts-Sound l body h.0, type_branches-Sound l rest h.1)

    excepts-Sound :
        (l : Bool) (excepts : HirExceptClauses F)
        → AllowedExcepts l excepts
        → ExceptsSound l excepts
    excepts-Sound l no_except h = tt
    excepts-Sound l (except_clause e v body rest) h =
        (lower_stmts-Sound l body h.0, excepts-Sound l rest h.1)

  -- Allowed statements lower from every valid state with an open block: the lowering returns a valid state,
  -- in which only the current block `c` and new blocks are changed, no block has another handler, the stacks
  -- of exits and handlers are as before, and no block is open, or `c` or a new one that has no terminator.
  pub lower_stmts-Lowers :
      (l : Bool) (ss : HirStmts F) (c : ℕ) (b : Builder F)
      → Allowed l ss
      → IsValid b
      → InLoop l b.loop_exit_stack
      → b.current ≡ some c
      → Open b.blocks c
      → Lowers c b (lower_stmts ss b)
  lower_stmts-Lowers l ss c b h v loop at o = lower_stmts-Sound l ss h c b v loop at o
