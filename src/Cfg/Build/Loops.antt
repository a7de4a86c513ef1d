-- ===== src/Cfg/Build/Loops.antt =====
-- WHILE, LOOP and REPEAT lower soundly (src/cfg/build.rs).
use mx.Common.{ℕ, ◌≡◌, refl, ap, ◌∙◌, Bool, true, none, some, arith, length, inl, inr}
use mx.Common.Runs.{Run, done}
use mx.Symtab.{SourceLoc}
use mx.Hir.{HirExpr, HirStmts, while_stmt, loop_stmt, repeat_stmt}
use mx.Cfg.{goto, successors}
use mx.Cfg.Verify.{arms_present}
use mx.Cfg.Build.{Builder, new_block, push_exit, pop_exit, popped}
use mx.Cfg.Build.Exprs.{lower_expr_as_branch}
use mx.Cfg.Build.Parts.{test_if_open, lower_tested}
use mx.Cfg.Build.Lower.{lower_stmts, lower_kind}
use mx.Cfg.Build.Inv.{Fits, Open, Grows-trans, Open-Grows, Open-lt}
use mx.Cfg.Build.Blocks.{some_case, IsValid, Closes, Now, closed, still, Lowers, new_block-Adds}
use mx.Cfg.Build.Steps.{start_block-eq-done, seal-Closes}
use mx.Cfg.Build.Branches.{Fits-le, Open-Adds, Closes-behind, lower_expr_as_branch-Closes}
use mx.Cfg.Build.Sound.{
  Sound, InLoop, InLoop-cons, push_exit-IsValid, pop_exit-IsValid, start_block-Lowers,
  lower_part-Closes,
}

module _ {F : Type 0} where
  pub while-Sound :
      (l : Bool) (cond : HirExpr F) (body : HirStmts F) (loc : SourceLoc)
      → Sound true (lower_stmts body)
      → Sound l (lower_kind (while_stmt cond body) loc)
  unfolding lower_kind successors arms_present
  while-Sound l cond body loc sound c b v loop at o =
      let (b1, header) = new_block b in
      let a1 = new_block-Adds b v in
      let (b2, body_block) = new_block b1 in
      let a2 = new_block-Adds b1 a1.valid in
      let (b3, exit_block) = new_block b2 in
      let a3 = new_block-Adds b2 a2.valid in
      let lt = Open-lt o in
      let s =
        seal-Closes (goto header) c b3 a3.valid (a3.current ∙ a2.current ∙ a1.current ∙ at)
          (Open-Adds c a3 (Open-Adds c a2 (Open-Adds c a1 o)))
          ((a1.positive, omega (arith, a1.number, a1.longer, a2.longer, a3.longer)), tt) refl in
      let open_header =
        Open-Grows s.grows (λ e. omega (arith, e, lt, a1.number))
          (Open-Adds header a3 (Open-Adds header a2 a1.opened)) in
      let in_header : Builder F = record s.after { current = some header } in
      let long = s.grows.longer in
      let br =
        lower_expr_as_branch-Closes cond body_block exit_block header in_header s.valid refl
          open_header (a2.positive, omega (arith, long, a2.number, a2.longer, a3.longer))
          (a3.positive, omega (arith, long, a3.number, a3.longer)) in
      let fit_exit : Fits (length br.after.blocks) exit_block =
        (a3.positive, omega (arith, long, br.grows.longer, a3.number, a3.longer)) in
      let open_body =
        Open-Grows br.grows (λ e. omega (arith, e, a1.number, a2.number, a1.longer))
          (Open-Grows s.grows (λ e. omega (arith, e, lt, a1.longer, a2.number))
            (Open-Adds body_block a3 a2.opened)) in
      let part =
        lower_part-Closes true (lower_stmts body) body_block header (push_exit exit_block br.after)
          sound (push_exit-IsValid exit_block br.after br.valid fit_exit)
          (InLoop-cons true exit_block br.after.loop_exit_stack) br.closed open_body
          (
            a1.positive,
            omega (arith, long, br.grows.longer, a1.number, a1.longer, a2.longer, a3.longer),
          ) in
      let open_exit =
        Open-Grows part.grows (λ e. omega (arith, e, a2.number, a3.number, a2.longer))
          (Open-Grows br.grows (λ e. omega (arith, e, a1.number, a3.number, a1.longer, a2.longer))
            (Open-Grows s.grows (λ e. omega (arith, e, lt, a1.longer, a2.longer, a3.number))
              a3.opened)) in
      let start_grows =
        Grows-trans c c (a1.grows c)
          (Grows-trans c c (a2.grows c) (Grows-trans c c (a3.grows c) s.grows (inl refl))
            (inl refl))
          (inl refl) in
      start_block-Lowers c exit_block b (pop_exit part.after)
        (pop_exit-IsValid part.after part.valid)
        (Grows-trans c body_block
          (Grows-trans c header start_grows br.grows (inr (omega (arith, a1.number)))) part.grows
          (inr (omega (arith, a2.number, a1.longer))))
        part.closed (ap popped part.loops ∙ br.loops ∙ s.loops ∙ a3.loops ∙ a2.loops ∙ a1.loops)
        (part.handlers ∙ br.handlers ∙ s.handlers ∙ a3.handlers ∙ a2.handlers ∙ a1.handlers)
        open_exit (omega (arith, a3.number, a1.longer, a2.longer))
        (rw (s.runs, start_block-eq-done header s.after s.closed open_header, br.runs, part.runs)
          refl)

  pub loop-Sound :
      (l : Bool) (body : HirStmts F) (loc : SourceLoc)
      → Sound true (lower_stmts body)
      → Sound l (lower_kind (loop_stmt body) loc)
  unfolding lower_kind successors arms_present
  loop-Sound l body loc sound c b v loop at o =
      let (b1, header) = new_block b in
      let a1 = new_block-Adds b v in
      let (b2, exit_block) = new_block b1 in
      let a2 = new_block-Adds b1 a1.valid in
      let lt = Open-lt o in
      let s =
        seal-Closes (goto header) c b2 a2.valid (a2.current ∙ a1.current ∙ at)
          (Open-Adds c a2 (Open-Adds c a1 o))
          ((a1.positive, omega (arith, a1.number, a1.longer, a2.longer)), tt) refl in
      let long = s.grows.longer in
      let fit_exit : Fits (length s.after.blocks) exit_block =
        (a2.positive, omega (arith, long, a2.number, a2.longer)) in
      let open_header =
        Open-Grows s.grows (λ e. omega (arith, e, lt, a1.number)) (Open-Adds header a2 a1.opened) in
      let part =
        lower_part-Closes true (lower_stmts body) header header (push_exit exit_block s.after) sound
          (push_exit-IsValid exit_block s.after s.valid fit_exit)
          (InLoop-cons true exit_block s.after.loop_exit_stack) s.closed open_header
          (a1.positive, omega (arith, long, a1.number, a1.longer, a2.longer)) in
      let open_exit =
        Open-Grows part.grows (λ e. omega (arith, e, a1.number, a2.number, a1.longer))
          (Open-Grows s.grows (λ e. omega (arith, e, lt, a1.longer, a2.number)) a2.opened) in
      let start_grows =
        Grows-trans c c (a1.grows c) (Grows-trans c c (a2.grows c) s.grows (inl refl)) (inl refl) in
      start_block-Lowers c exit_block b (pop_exit part.after)
        (pop_exit-IsValid part.after part.valid)
        (Grows-trans c header start_grows part.grows (inr (omega (arith, a1.number)))) part.closed
        (ap popped part.loops ∙ s.loops ∙ a2.loops ∙ a1.loops)
        (part.handlers ∙ s.handlers ∙ a2.handlers ∙ a1.handlers) open_exit
        (omega (arith, a2.number, a1.longer)) (rw (s.runs, part.runs) refl)

  test_if_open-Closes :
      (cond : HirExpr F) (t f c : ℕ) (b : Builder F) {r : Run (Builder F)} (low : Lowers c b r)
      → Now c b low.after
      → Fits (length low.after.blocks) t
      → Fits (length low.after.blocks) f
      → Closes c b (test_if_open cond t f low.after)
  test_if_open-Closes cond t f c b low (closed at) ft ff = record {
    after = low.after;
    runs = rw at refl;
    valid = low.valid;
    grows = low.grows;
    closed = at;
    loops = low.loops;
    handlers = low.handlers;
  }
  test_if_open-Closes cond t f c b low (still c' at o new) ft ff =
      Closes-behind low.grows low.loops low.handlers new
        (lower_expr_as_branch-Closes cond t f c' low.after low.valid at o ft ff)
        (some_case low.after.current (done low.after) (lower_expr_as_branch cond t f low.after) at)

  -- The body of REPEAT with the test behind it.
  lower_tested-Closes :
      (lower : Builder F → Run (Builder F)) (cond : HirExpr F) (x t : ℕ) (b : Builder F)
      → Sound true lower
      → IsValid b
      → InLoop true b.loop_exit_stack
      → b.current ≡ none
      → Open b.blocks x
      → Fits (length b.blocks) t
      → Fits (length b.blocks) x
      → Closes x b (lower_tested lower cond t x b)
  unfolding lower_tested
  lower_tested-Closes lower cond x t b sound v loop at o ft fx =
      let started : Builder F = record b { current = some x } in
      let low = sound x started v loop refl o in
      let s =
        test_if_open-Closes cond t x x started low low.now (Fits-le ft low.grows.longer)
          (Fits-le fx low.grows.longer) in
      record {
        after = s.after;
        runs = rw (start_block-eq-done x b at o, low.runs) s.runs;
        valid = s.valid;
        grows = s.grows;
        closed = s.closed;
        loops = s.loops;
        handlers = s.handlers;
      }

  pub repeat-Sound :
      (l : Bool) (body : HirStmts F) (cond : HirExpr F) (loc : SourceLoc)
      → Sound true (lower_stmts body)
      → Sound l (lower_kind (repeat_stmt body cond) loc)
  unfolding lower_kind successors arms_present
  repeat-Sound l body cond loc sound c b v loop at o =
      let (b1, body_block) = new_block b in
      let a1 = new_block-Adds b v in
      let (b2, exit_block) = new_block b1 in
      let a2 = new_block-Adds b1 a1.valid in
      let lt = Open-lt o in
      let s =
        seal-Closes (goto body_block) c b2 a2.valid (a2.current ∙ a1.current ∙ at)
          (Open-Adds c a2 (Open-Adds c a1 o))
          ((a1.positive, omega (arith, a1.number, a1.longer, a2.longer)), tt) refl in
      let long = s.grows.longer in
      let fit_exit : Fits (length s.after.blocks) exit_block =
        (a2.positive, omega (arith, long, a2.number, a2.longer)) in
      let fit_body : Fits (length s.after.blocks) body_block =
        (a1.positive, omega (arith, long, a1.number, a1.longer, a2.longer)) in
      let open_body =
        Open-Grows s.grows (λ e. omega (arith, e, lt, a1.number))
          (Open-Adds body_block a2 a1.opened) in
      let test =
        lower_tested-Closes (lower_stmts body) cond body_block exit_block
          (push_exit exit_block s.after) sound
          (push_exit-IsValid exit_block s.after s.valid fit_exit)
          (InLoop-cons true exit_block s.after.loop_exit_stack) s.closed open_body fit_exit
          fit_body in
      let open_exit =
        Open-Grows test.grows (λ e. omega (arith, e, a1.number, a2.number, a1.longer))
          (Open-Grows s.grows (λ e. omega (arith, e, lt, a1.longer, a2.number)) a2.opened) in
      let start_grows =
        Grows-trans c c (a1.grows c) (Grows-trans c c (a2.grows c) s.grows (inl refl)) (inl refl) in
      start_block-Lowers c exit_block b (pop_exit test.after)
        (pop_exit-IsValid test.after test.valid)
        (Grows-trans c body_block start_grows test.grows (inr (omega (arith, a1.number))))
        test.closed (ap popped test.loops ∙ s.loops ∙ a2.loops ∙ a1.loops)
        (test.handlers ∙ s.handlers ∙ a2.handlers ∙ a1.handlers) open_exit
        (omega (arith, a2.number, a1.longer)) (rw (s.runs, test.runs) refl)
