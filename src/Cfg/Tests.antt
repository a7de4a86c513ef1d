-- ===== src/Cfg/Tests.antt =====
-- Runs of the graph builder on small bodies.
use mx.Common.{
  codes, List, ◌↔◌, ℕ, ◌≡◌, refl, ◌∙◌, Bool, true, false, none, some, [], ◌∷◌, arith, length,
}
use mx.Common.Runs.{done, panic}
use mx.Hir
use mx.Hir.{
  HirExpr, expr, bool_lit, int_lit, binary_op, and_op, or_op, not_expr, HirStmt, stmt, HirStmts,
  end, seq, empty, exit, if_stmt, while_stmt, case_stmt, try_stmt, return_stmt, no_elsif, elsif,
  no_else, else_body, no_branch, no_except, except_clause,
}
use mx.Cfg.{goto, return, Terminator, BasicBlock, replace_target, Cfg}
use mx.Cfg.Cleanup.{collapse_round, collapse_loop, trivial_target, redirect}
use mx.Cfg.Cleanup.Endless.{collapse_loop-endless}
use mx.Cfg.Preds.{compute_preds}
use mx.Cfg.Preds.Edges.{compute_preds_iff}
use mx.Cfg.Verify.{has_pred, has_successor, verify}
use mx.Cfg.Build.{Builder, new, new_block}
use mx.Cfg.Build.Exprs.{cfg_loc, lower_expr_as_branch}
use mx.Cfg.Build.Lower.{lower_kind, lower_default, lower_branches}
use mx.Cfg.Build.Parts.{case_arms, lower_part}
use mx.Cfg.Build.Finish.{finish, seal_all}
use mx.Cfg.Preds.{preds_of, add_preds, add_pred}
use mx.Cfg.{successors}
use mx.Cfg.Verify.{sequential, arms_present}
use mx.Cfg.Build.{goto_if_open, start_if_reached, any_path_reaches, start_block, seal}
use mx.Cfg.Build.Lower.{lower_stmts}
use mx.Cfg.Build.Finish.{build_cfg}
use mx.Cfg.Build.Inv.{Fits, Open}
use mx.Cfg.Build.Blocks.{IsValid, Lowers, new_block-Adds}
use mx.Cfg.Build.Branches.{Open-Adds}
use mx.Cfg.Build.Arms.{count_branches, Labelled}
use mx.Cfg.Build.Dispatch.{CatchAllLast}
use mx.Cfg.Build.Misplaced.{CatchAllInside, lower_stmt-panics}
use mx.Cfg.Build.Unreached.{leaves, append, lower_stmts-unreached}
use mx.Hir.{SymbolId, HirExceptClauses}
use mx.Cfg.Build.Exprs.{symbol}
use mx.Cfg.Build.Lower.{lower_stmt}
use mx.Cfg.Build.Allowed.{Allowed}
use mx.Cfg.Build.Whole.{lower_stmts-Lowers}
use mx.Cfg.Build.Conditions.{Goes, evaluate, pick, lower_expr_as_branch-decides}
use mx.Cfg.Build.Verified.{build_cfg-verified, new-IsValid, new-Open, new-current}

abbrev literal : Bool → HirExpr Unit
literal b = expr (bool_lit b) 3 cfg_loc

-- WHILE TRUE DO IF FALSE THEN EXIT END END; CASE .. OF 1 : RETURN END; TRY .. EXCEPT .. END
abbrev sample : HirStmts Unit
sample =
    seq
      (stmt
        (while_stmt (literal true) (
          seq
            (stmt (if_stmt (literal false) (seq (stmt exit cfg_loc) end) no_elsif no_else) cfg_loc)
            end))
        cfg_loc)
      (seq
        (stmt
          (case_stmt (literal true)
            (Hir.branch (Hir.single (literal true) ∷ []) (seq (stmt (return_stmt none) cfg_loc) end)
              no_branch)
            no_else)
          cfg_loc)
        (seq
          (stmt
            (try_stmt (seq (stmt empty cfg_loc) end) (except_clause none none end no_except)
              (else_body end))
            cfg_loc)
          end))

sample-Allowed : Allowed false sample
unfolding Allowed count_branches Labelled CatchAllLast
sample-Allowed = (
  (((refl, tt), (tt, tt)), tt),
  ((omega arith, ((refl, tt), (((tt, tt), tt), tt))), ((refl, ((tt, tt), (tt, tt))), tt)),
)

build_cfg-verified_example :
    (cfg : Cfg Unit) × ((build_cfg sample ≡ done cfg) × (verify cfg ≡ done tt))
build_cfg-verified_example = build_cfg-verified sample sample-Allowed

lower_stmts-Lowers_example : Lowers 0 (new {F = Unit}) (lower_stmts sample new)
lower_stmts-Lowers_example =
    lower_stmts-Lowers false sample 0 new sample-Allowed new-IsValid tt (new-current Unit) new-Open

-- A state with two more blocks.
abbrev first : Builder Unit × ℕ
first = new_block new

abbrev second : Builder Unit × ℕ
second = new_block first.0

first-IsValid : IsValid first.0
first-IsValid = (new_block-Adds new new-IsValid).valid

second-IsValid : IsValid second.0
second-IsValid = (new_block-Adds first.0 first-IsValid).valid

first-Open : Open first.0.blocks 0
first-Open = Open-Adds 0 (new_block-Adds new new-IsValid) new-Open

second-Open : Open second.0.blocks 0
second-Open = Open-Adds 0 (new_block-Adds first.0 first-IsValid) first-Open

first-current : first.0.current ≡ some 0
first-current = (new_block-Adds new new-IsValid).current ∙ new-current Unit

second-current : second.0.current ≡ some 0
second-current = (new_block-Adds first.0 first-IsValid).current ∙ first-current

first-Fits : Fits (length first.0.blocks) first.1
first-Fits =
    let a = new_block-Adds (new {F = Unit}) new-IsValid in
    (a.positive, omega (arith, a.number, a.longer))

first_in_second-Fits : Fits (length second.0.blocks) first.1
first_in_second-Fits =
    (first-Fits.0, omega (arith, first-Fits.1, (new_block-Adds first.0 first-IsValid).longer))

second-Fits : Fits (length second.0.blocks) second.1
second-Fits =
    let a = new_block-Adds first.0 first-IsValid in (a.positive, omega (arith, a.number, a.longer))

-- The conditions that are literals have their value; each evaluation is logged.
abbrev logged : HirExpr Unit → List (HirExpr Unit) → Bool × List (HirExpr Unit)
logged (expr (bool_lit b) typ loc) log = (b, expr (bool_lit b) typ loc ∷ log)
logged e log = (false, e ∷ log)

-- NOT (FALSE AND TRUE) OR FALSE
abbrev condition : HirExpr Unit
condition =
    expr
      (binary_op or_op
        (expr (not_expr (expr (binary_op and_op (literal false) (literal true)) 3 cfg_loc)) 3
          cfg_loc)
        (literal false))
      3 cfg_loc

lower_expr_as_branch-decides_example :
    (after : Builder Unit) × ((lower_expr_as_branch condition first.1 second.1 second.0
        ≡ done after)
      × Goes logged after.blocks 0
          (length second.0.blocks)
          0
          []
          (pick (evaluate logged condition []).0 first.1 second.1)
          (evaluate logged condition []).1)
lower_expr_as_branch-decides_example =
    lower_expr_as_branch-decides logged [] condition first.1 second.1 0 second.0 second-IsValid
      second-current second-Open first_in_second-Fits second-Fits

-- The second parts of AND and OR are not evaluated.
evaluate-condition : evaluate logged condition [] ≡ (true, literal false ∷ [])
unfolding evaluate
evaluate-condition = refl

abbrev some_exception : SymbolId
some_exception = symbol (codes "E") (codes "E") 0

-- A clause for one exception, one for every exception, and another.
abbrev clauses : HirExceptClauses Unit
clauses =
    except_clause (some some_exception) none end
      (except_clause none none end (except_clause (some some_exception) none end no_except))

clauses-CatchAllInside : CatchAllInside clauses
unfolding CatchAllInside
clauses-CatchAllInside = refl

nothing-Allowed : Allowed {F = Unit} false end
unfolding Allowed
nothing-Allowed = tt

lower_stmt-panics_example : lower_stmt (stmt (try_stmt end clauses no_else) cfg_loc) new ≡ panic
lower_stmt-panics_example =
    lower_stmt-panics false end clauses no_else cfg_loc 0 new clauses-CatchAllInside nothing-Allowed
      new-IsValid tt (new-current Unit) new-Open

return-leaves : leaves {F = Unit} (return_stmt none) ≡ true
unfolding leaves
return-leaves = refl

lower_stmts-unreached_example :
    lower_stmts (append sample (seq (stmt (return_stmt none) cfg_loc) sample)) new
    ≡ lower_stmts (append sample (seq (stmt (return_stmt none) cfg_loc) end)) new
lower_stmts-unreached_example =
    lower_stmts-unreached sample sample (return_stmt none) cfg_loc new return-leaves

-- The graph of the sample before its predecessors are known.
abbrev built : Lowers 0 (new {F = Unit}) (lower_stmts sample new)
built =
    lower_stmts-Lowers false sample 0 new sample-Allowed new-IsValid tt (new-current Unit) new-Open

abbrev built_cfg : Cfg Unit
built_cfg = record { blocks = built.after.blocks; entry = 0; preds = []; preds_valid = false }

compute_preds_iff_example :
    (preds : List (List ℕ)) × ((compute_preds built_cfg
        ≡ done (record built_cfg { preds = preds; preds_valid = true }))
      × ((t p : ℕ) → (has_pred preds p t ≡ true) ↔ (has_successor built_cfg.blocks t p ≡ true)))
compute_preds_iff_example =
    compute_preds_iff built_cfg built.after.loop_exit_stack built.after.handler_stack built.valid

abbrev chain_block : ℕ → Terminator Unit → BasicBlock Unit
chain_block i t = record { id = i; stmts = []; terminator = some t; handler = none }

-- A block that goes on to a block that goes on to the return.
abbrev chain : Cfg Unit
chain = record {
  blocks = chain_block 0 (goto 1) ∷ chain_block 1 (goto 2) ∷ chain_block 2 (return none) ∷ [];
  entry = 0;
  preds = [] ∷ (0 ∷ []) ∷ (1 ∷ []) ∷ [];
  preds_valid = true;
}

abbrev collapsed : List (BasicBlock Unit)
collapsed = chain_block 0 (goto 2) ∷ chain_block 1 (goto 2) ∷ chain_block 2 (return none) ∷ []

chain-skips : collapse_round chain [] (length chain.blocks) 0 chain.blocks ≡ done (collapsed, true)
unfolding collapse_round trivial_target redirect replace_target
chain-skips = refl

collapse_loop-endless_example : ¬ (collapse_loop 7 chain [] chain.blocks ≡ done collapsed)
collapse_loop-endless_example =
    collapse_loop-endless chain [] 7 chain.blocks collapsed collapsed chain-skips

-- A CASE with an ELSE only, as the parser accepts it, makes a switch without arms, which `verify` refuses.
no_branch-panics :
    build_cfg (seq (stmt (case_stmt (literal true) no_branch (else_body end)) cfg_loc) end) ≡ panic
unfolding build_cfg finish seal_all compute_preds preds_of add_preds add_pred successors verify
    sequential arms_present lower_stmts lower_stmt lower_kind lower_default lower_branches case_arms
    lower_part goto_if_open start_if_reached any_path_reaches new new_block start_block seal
no_branch-panics = refl
