-- ===== src/Cfg/Build/Branches.antt =====
-- The parts of the lowering that close blocks (src/cfg/build.rs).
use mx.Common.{ℕ, suc, ◌≤◌, ◌<◌, ◌≡◌, refl, ◌∙◌, some, arith, length, ◌⊎◌, inl, inr}
use mx.Common.Runs.{Run, ◌>>=◌}
use mx.Hir.{HirExpr, expr, binary_op, not_expr, and_op, or_op}
use mx.Cfg.{branch, successors}
use mx.Cfg.Verify.{arms_present}
use mx.Cfg.Build.{Builder, new_block, start_block}
use mx.Cfg.Build.Exprs.{lower_expr_as_branch}
use mx.Cfg.Build.Inv.{Fits, Open, Grows, Grows-trans, Open-Grows, Open-lt}
use mx.Cfg.Build.Blocks.{IsValid, Closes, Adds, new_block-Adds}
use mx.Cfg.Build.Steps.{start_block-eq-done, seal-Closes}

pub Fits-le : {m n t : ℕ} → Fits m t → m ≤ n → Fits n t
Fits-le h l = (h.0, omega (arith, h.1, l))

module _ {F : Type 0} where
  pub Open-Adds :
      {b : Builder F} {p : Builder F × ℕ} (i : ℕ) → Adds b p → Open b.blocks i → Open p.0.blocks i
  Open-Adds i a o = Open-Grows (a.grows (suc i)) (λ e. omega (arith, e)) o

  -- A call that closes a block, behind steps that changed the block `c` and new blocks.
  pub Closes-behind :
      {c d : ℕ} {b mid : Builder F} {r r' : Run (Builder F)}
      → Grows c b.blocks mid.blocks
      → mid.loop_exit_stack ≡ b.loop_exit_stack
      → mid.handler_stack ≡ b.handler_stack
      → ((d ≡ c) ⊎ (length b.blocks ≤ d))
      → Closes d mid r
      → r' ≡ r
      → Closes c b r'
  Closes-behind {c} {d} g ls hs new s e = record {
    after = s.after;
    runs = e ∙ s.runs;
    valid = s.valid;
    grows = Grows-trans c d g s.grows new;
    closed = s.closed;
    loops = s.loops ∙ ls;
    handlers = s.handlers ∙ hs;
  }

  -- Two conditions, the second in a block of its own: `p` and `q` are the ends of the first.
  two_branches-Closes :
      (e1 e2 : HirExpr F) (p q t f c : ℕ) (b : Builder F)
      → (a : Adds b (new_block b))
      → (first : Closes c (new_block b).0 (lower_expr_as_branch e1 p q (new_block b).0))
      → c < length b.blocks
      → (second : Closes
          (new_block b).1
          (record first.after { current = some (new_block b).1 })
          (lower_expr_as_branch e2 t f (record first.after { current = some (new_block b).1 })))
      → Closes c b (
          lower_expr_as_branch e1 p q (new_block b).0 >>= λ b2.
          start_block (new_block b).1 b2 >>= λ b3. lower_expr_as_branch e2 t f b3)
  two_branches-Closes e1 e2 p q t f c b a first l second =
      Closes-behind (Grows-trans c c (a.grows c) first.grows (inl refl)) (first.loops ∙ a.loops)
        (first.handlers ∙ a.handlers) (inr (omega (arith, a.number))) second
        (rw
          (
            first.runs,
            start_block-eq-done (new_block b).1 first.after first.closed
                (Open-Grows first.grows (λ e. omega (arith, e, l, a.number)) a.opened),
          )
          refl)

  pub lower_expr_as_branch-Closes :
      (e : HirExpr F) (t f c : ℕ) (b : Builder F)
      → IsValid b
      → b.current ≡ some c
      → Open b.blocks c
      → Fits (length b.blocks) t
      → Fits (length b.blocks) f
      → Closes c b (lower_expr_as_branch e t f b)
  unfolding lower_expr_as_branch successors arms_present
  lower_expr_as_branch-Closes (expr (binary_op and_op left right) typ loc) t f c b v at o ft ff =
      let a = new_block-Adds b v in
      let rhs = (new_block b).1 in
      let n : length b.blocks ≤ length (new_block b).0.blocks = omega (arith, a.longer) in
      let first =
        lower_expr_as_branch-Closes left rhs f c (new_block b).0 a.valid (a.current ∙ at)
          (Open-Adds c a o) (a.positive, omega (arith, a.number, a.longer)) (Fits-le ff n) in
      let opened = Open-Grows first.grows (λ e. omega (arith, e, Open-lt o, a.number)) a.opened in
      let m : length b.blocks ≤ length first.after.blocks = omega (arith, n, first.grows.longer) in
      two_branches-Closes left right rhs f t f c b a first (Open-lt o) (
        lower_expr_as_branch-Closes right t f rhs (record first.after { current = some rhs })
          first.valid refl opened (Fits-le ft m) (Fits-le ff m))
  lower_expr_as_branch-Closes (expr (binary_op or_op left right) typ loc) t f c b v at o ft ff =
      let a = new_block-Adds b v in
      let rhs = (new_block b).1 in
      let n : length b.blocks ≤ length (new_block b).0.blocks = omega (arith, a.longer) in
      let first =
        lower_expr_as_branch-Closes left t rhs c (new_block b).0 a.valid (a.current ∙ at)
          (Open-Adds c a o) (Fits-le ft n) (a.positive, omega (arith, a.number, a.longer)) in
      let opened = Open-Grows first.grows (λ e. omega (arith, e, Open-lt o, a.number)) a.opened in
      let m : length b.blocks ≤ length first.after.blocks = omega (arith, n, first.grows.longer) in
      two_branches-Closes left right t rhs t f c b a first (Open-lt o) (
        lower_expr_as_branch-Closes right t f rhs (record first.after { current = some rhs })
          first.valid refl opened (Fits-le ft m) (Fits-le ff m))
  lower_expr_as_branch-Closes (expr (not_expr inner) typ loc) t f c b v at o ft ff =
      lower_expr_as_branch-Closes inner f t c b v at o ff ft
  lower_expr_as_branch-Closes e t f c b v at o ft ff =
      seal-Closes (branch e t f) c b v at o (ft, (ff, tt)) refl
