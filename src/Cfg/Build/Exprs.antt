-- ===== src/Cfg/Build/Exprs.antt =====
-- The expressions and statements that `CfgBuilder` makes, and branches on conditions (src/cfg/build.rs).
use mx.Common.{ℕ, Bool, true, false, Text, codes, Option, none, some, [], ◌∷◌}
use mx.Common.Int.{ℤ, pos, negsuc}
use mx.Common.Runs.{Run, done, ◌>>=◌}
use mx.Symtab.{SourceLoc}
use mx.Types.Registry.{ty_boolean}
use mx.Hir.{
  SymbolId, local, HirExpr, expr, int_lit, place, binary_op, not_expr, Place, place_at,
  no_projections, BinaryOp, and_op, or_op, eq, ne, lt, le, gt, ge, ForDirection, up, down, HirStmt,
  stmt, assign, proc_call, direct,
}
use mx.Cfg.{branch}
use mx.Cfg.Build.{Builder, new_block, start_block, seal, push_stmt}

abbrev pub ty_void : ℕ
ty_void = 7

abbrev pub cfg_loc : SourceLoc
cfg_loc = record { file = codes "<cfg>"; line = 0; col = 0 }

abbrev pub symbol : Text → Text → ℕ → SymbolId
symbol mangled source_name typ = record {
  mangled = mangled;
  source_name = source_name;
  module_name = none;
  typ = typ;
  is_var_param = false;
  is_open_array = false;
}

-- The operators whose result is BOOLEAN in `make_binop`.
unfoldable pub is_comparison : BinaryOp → Bool
is_comparison eq = true
is_comparison ne = true
is_comparison lt = true
is_comparison le = true
is_comparison gt = true
is_comparison ge = true
is_comparison _ = false

abbrev pub for_op : ForDirection → BinaryOp
for_op up = le
for_op down = ge

abbrev pub step_literal : ForDirection → ℤ
step_literal up = pos 1
step_literal down = negsuc 0

module _ {F : Type 0} where
  abbrev pub local_place : SymbolId → ℕ → Place F
  local_place sym typ = place_at (local sym) no_projections typ cfg_loc

  unfoldable pub push_assign : Text → ℕ → HirExpr F → Builder F → Run (Builder F)
  push_assign var typ value b =
      push_stmt (stmt (assign (local_place (symbol var var typ) typ) value) cfg_loc) b

  unfoldable pub make_binop : BinaryOp → Text → ℕ → HirExpr F → HirExpr F
  make_binop op var var_ty rhs =
      expr
        (binary_op op (expr (place (local_place (symbol var var var_ty) var_ty)) var_ty cfg_loc)
          rhs)
        (elim (is_comparison op) [ true ↦ ty_boolean | false ↦ var_ty ]) cfg_loc

  abbrev pub for_step : Option (HirExpr F) → ForDirection → ℕ → HirExpr F
  for_step (some step) direction var_ty = step
  for_step none direction var_ty = expr (int_lit (step_literal direction)) var_ty cfg_loc

  -- The calls around the body of LOCK.
  abbrev pub mutex_call : Text → Text → HirExpr F → SourceLoc → HirStmt F
  mutex_call mangled name mutex loc =
      stmt (proc_call (direct (symbol mangled name ty_void)) (mutex ∷ [])) loc

  -- The condition by which the dispatch of TRY recognizes an exception.
  abbrev pub exception_test : SymbolId → HirExpr F
  exception_test sym = expr (place (local_place sym sym.typ)) ty_boolean cfg_loc

  unfoldable pub lower_expr_as_branch : HirExpr F → ℕ → ℕ → Builder F → Run (Builder F)
  lower_expr_as_branch (expr (binary_op and_op left right) typ loc) on_true on_false b = do
    (b1, rhs_block) ← done (new_block b)
    b2 ← lower_expr_as_branch left rhs_block on_false b1
    b3 ← start_block rhs_block b2
    lower_expr_as_branch right on_true on_false b3
  lower_expr_as_branch (expr (binary_op or_op left right) typ loc) on_true on_false b = do
    (b1, rhs_block) ← done (new_block b)
    b2 ← lower_expr_as_branch left on_true rhs_block b1
    b3 ← start_block rhs_block b2
    lower_expr_as_branch right on_true on_false b3
  lower_expr_as_branch (expr (not_expr inner) typ loc) on_true on_false b =
      lower_expr_as_branch inner on_false on_true b
  lower_expr_as_branch cond on_true on_false b = seal (branch cond on_true on_false) b
