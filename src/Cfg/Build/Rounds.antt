-- ===== src/Cfg/Build/Rounds.antt =====
-- FOR lowers soundly (`lower_for` of src/cfg/build.rs).
use mx.Common.{
  ℕ, ◌≤◌, ◌<◌, ◌≡◌, refl, ap, ◌∙◌, Bool, true, Option, none, some, Text, arith, length, inl, inr,
}
use mx.Common.Runs.{Run}
use mx.Symtab.{SourceLoc}
use mx.Hir.{HirExpr, HirStmts, ForDirection, add, stmt, assign, for_stmt}
use mx.Cfg.{goto, branch, successors}
use mx.Cfg.Verify.{arms_present}
use mx.Cfg.Build.{Builder, new_block, push_exit, pop_exit, popped}
use mx.Cfg.Build.Exprs.{push_assign, make_binop, for_op, for_step, local_place, symbol, cfg_loc}
use mx.Cfg.Build.Parts.{lower_latch, lower_rounds, lower_for}
use mx.Cfg.Build.Lower.{lower_stmts, lower_kind}
use mx.Cfg.Build.Inv.{Fits, Open, Grows, Grows-trans, Open-Grows, Open-lt}
use mx.Cfg.Build.Blocks.{IsValid, Closes, Lowers, new_block-Adds}
use mx.Cfg.Build.Steps.{start_block-eq-done, seal-Closes, Keeps, push_stmt-Keeps}
use mx.Cfg.Build.Branches.{Fits-le, Open-Adds, Closes-behind}
use mx.Cfg.Build.Sound.{
  Sound, InLoop-cons, InLoop-eq, Lowers-behind, push_exit-IsValid, pop_exit-IsValid,
  start_block-Lowers, lower_part-Closes,
}

module _ {F : Type 0} where
  pub push_assign-Keeps :
      (var : Text) (ty : ℕ) (value : HirExpr F) (c : ℕ) (b : Builder F)
      → IsValid b
      → b.current ≡ some c
      → Open b.blocks c
      → Keeps c b (push_assign var ty value b)
  unfolding push_assign
  push_assign-Keeps var ty value c b v at o =
      push_stmt-Keeps (stmt (assign (local_place (symbol var var ty) ty) value) cfg_loc) c b v at o

  -- The step of a FOR behind its body: the variable is set, and the test is next.
  latched-Closes :
      (var : Text) (ty : ℕ) (value : HirExpr F) (x target : ℕ) (b : Builder F)
      → IsValid b
      → b.current ≡ none
      → Open b.blocks x
      → Fits (length b.blocks) target
      → Closes x b (lower_latch var ty value x target b)
  unfolding lower_latch successors arms_present
  latched-Closes var ty value x target b v at o fit =
      let k = push_assign-Keeps var ty value x (record b { current = some x }) v refl o in
      let s =
        seal-Closes (goto target) x k.after k.valid k.current k.opened
          (Fits-le fit k.grows.longer, tt) refl in
      Closes-behind k.grows k.loops k.handlers (inl refl) s
        (rw (start_block-eq-done x b at o, k.runs) refl)

  -- The rounds of FOR in a state that has its four blocks, since the state `b0`.
  rounds-Lowers :
      (var : Text) (ty : ℕ) (limit : HirExpr F) (step : Option (HirExpr F))
      (direction : ForDirection) (lower : Builder F → Run (Builder F))
      (c cond_block body_block latch exit_block : ℕ) (b0 b : Builder F)
      → Sound true lower
      → IsValid b
      → b.current ≡ some c
      → Open b.blocks c
      → Grows c b0.blocks b.blocks
      → b.loop_exit_stack ≡ b0.loop_exit_stack
      → b.handler_stack ≡ b0.handler_stack
      → c < length b0.blocks
      → 0 < cond_block
      → length b0.blocks ≤ cond_block
      → cond_block < body_block
      → body_block < latch
      → latch < exit_block
      → Open b.blocks cond_block
      → Open b.blocks body_block
      → Open b.blocks latch
      → Open b.blocks exit_block
      → Lowers c b0
          (lower_rounds var ty limit step direction lower cond_block body_block latch exit_block b)
  unfolding lower_rounds successors arms_present
  rounds-Lowers var ty limit step direction lower c cond_block body_block latch exit_block b0 b
        sound v at o g ls hs lc pos le1 lt1 lt2 lt3 oc ob ol oe =
      let s = seal-Closes (goto cond_block) c b v at o ((pos, Open-lt oc), tt) refl in
      let open_cond = Open-Grows s.grows (λ e. omega (arith, e, lc, le1)) oc in
      let long = s.grows.longer in
      let br =
        seal-Closes (branch (make_binop (for_op direction) var ty limit) body_block exit_block)
          cond_block (record s.after { current = some cond_block }) s.valid refl open_cond
          (
            (omega arith, omega (arith, long, Open-lt ob)),
            ((omega arith, omega (arith, long, Open-lt oe)), tt),
          )
          refl in
      let open_body =
        Open-Grows br.grows (λ e. omega (arith, e, lt1))
          (Open-Grows s.grows (λ e. omega (arith, e, lc, le1, lt1)) ob) in
      let part =
        lower_part-Closes true lower body_block latch (push_exit exit_block br.after) sound
          (push_exit-IsValid exit_block br.after br.valid
            (omega arith, omega (arith, long, br.grows.longer, Open-lt oe)))
          (InLoop-cons true exit_block br.after.loop_exit_stack) br.closed open_body
          (omega arith, omega (arith, long, br.grows.longer, Open-lt ol)) in
      let open_latch =
        Open-Grows part.grows (λ e. omega (arith, e, lt2))
          (Open-Grows br.grows (λ e. omega (arith, e, lt1, lt2))
            (Open-Grows s.grows (λ e. omega (arith, e, lc, le1, lt1, lt2)) ol)) in
      let next =
        latched-Closes var ty (make_binop add var ty (for_step step direction ty)) latch cond_block
          (pop_exit part.after) (pop_exit-IsValid part.after part.valid) part.closed open_latch
          (pos, omega (arith, long, br.grows.longer, part.grows.longer, Open-lt oc)) in
      let open_exit =
        Open-Grows next.grows (λ e. omega (arith, e, lt3))
          (Open-Grows part.grows (λ e. omega (arith, e, lt2, lt3))
            (Open-Grows br.grows (λ e. omega (arith, e, lt1, lt2, lt3))
              (Open-Grows s.grows (λ e. omega (arith, e, lc, le1, lt1, lt2, lt3)) oe))) in
      start_block-Lowers c exit_block b0 next.after next.valid
        (Grows-trans c latch
          (Grows-trans c body_block
            (Grows-trans c cond_block (Grows-trans c c g s.grows (inl refl)) br.grows (inr le1))
            part.grows (inr (omega (arith, le1, lt1))))
          next.grows (inr (omega (arith, le1, lt1, lt2))))
        next.closed (next.loops ∙ ap popped part.loops ∙ br.loops ∙ s.loops ∙ ls)
        (next.handlers ∙ part.handlers ∙ br.handlers ∙ s.handlers ∙ hs) open_exit
        (omega (arith, le1, lt1, lt2, lt3))
        (rw
          (
            s.runs,
            start_block-eq-done cond_block s.after s.closed open_cond,
            br.runs,
            part.runs,
            next.runs,
          )
          refl)

  for_rest-Sound :
      (l : Bool) (var : Text) (ty : ℕ) (limit : HirExpr F) (step : Option (HirExpr F))
      (direction : ForDirection) (body : HirStmts F)
      → Sound true (lower_stmts body)
      → Sound l (lower_for var ty limit step direction (lower_stmts body))
  unfolding lower_for
  for_rest-Sound l var ty limit step direction body sound c b v loop at o =
      let (b1, cond_block) = new_block b in
      let a1 = new_block-Adds b v in
      let (b2, body_block) = new_block b1 in
      let a2 = new_block-Adds b1 a1.valid in
      let (b3, latch) = new_block b2 in
      let a3 = new_block-Adds b2 a2.valid in
      let (b4, exit_block) = new_block b3 in
      let a4 = new_block-Adds b3 a3.valid in
      rounds-Lowers var ty limit step direction (lower_stmts body) c cond_block body_block latch
        exit_block b b4 sound a4.valid (a4.current ∙ a3.current ∙ a2.current ∙ a1.current ∙ at)
        (Open-Adds c a4 (Open-Adds c a3 (Open-Adds c a2 (Open-Adds c a1 o))))
        (Grows-trans c c (a1.grows c)
          (Grows-trans c c (a2.grows c) (Grows-trans c c (a3.grows c) (a4.grows c) (inl refl))
            (inl refl))
          (inl refl))
        (a4.loops ∙ a3.loops ∙ a2.loops ∙ a1.loops)
        (a4.handlers ∙ a3.handlers ∙ a2.handlers ∙ a1.handlers) (Open-lt o) a1.positive
        (omega (arith, a1.number)) (omega (arith, a1.number, a1.longer, a2.number))
        (omega (arith, a2.number, a2.longer, a3.number))
        (omega (arith, a3.number, a3.longer, a4.number))
        (Open-Adds cond_block a4 (Open-Adds cond_block a3 (Open-Adds cond_block a2 a1.opened)))
        (Open-Adds body_block a4 (Open-Adds body_block a3 a2.opened)) (Open-Adds latch a4 a3.opened)
        a4.opened

  pub for-Sound :
      (l : Bool) (var : Text) (ty : ℕ) (start limit : HirExpr F) (step : Option (HirExpr F))
      (direction : ForDirection) (body : HirStmts F) (loc : SourceLoc)
      → Sound true (lower_stmts body)
      → Sound l (lower_kind (for_stmt var ty start limit step direction body) loc)
  unfolding lower_kind
  for-Sound l var ty start limit step direction body loc sound c b v loop at o =
      let k = push_assign-Keeps var ty start c b v at o in
      Lowers-behind k
        (for_rest-Sound l var ty limit step direction body sound c k.after k.valid
          (InLoop-eq l k.loops loop) k.current k.opened)
        (rw k.runs refl)
