-- ===== src/Cfg/Build/Conditional.antt =====
-- A condition with the body behind it (src/cfg/build.rs).
use mx.Common.{
  ℕ, suc, ◌≤◌, ◌<◌, ◌≡◌, ◌≢◌, refl, ◌∙◌, Bool, Bool-cases, true, false, some, arith, length, ◌⊎◌,
  inl, inr,
}
use mx.Common.Runs.{Run, done}
use mx.Hir.{HirExpr}
use mx.Cfg.Build.{Builder, new_block}
use mx.Cfg.Build.Parts.{block_or, lower_arm}
use mx.Cfg.Build.Inv.{Open, Grows, Grows-refl, Grows-trans, Open-Grows, Open-lt}
use mx.Cfg.Build.Blocks.{IsValid, new_block-Adds}
use mx.Cfg.Build.Branches.{Open-Adds, lower_expr_as_branch-Closes}
use mx.Cfg.Build.Sound.{Sound, InLoop, InLoop-eq, Since, lower_part-Closes}

module _ {F : Type 0} where
  -- Where a condition is false: an open block of its own, or where the statement ends.
  pub record Other (more : Bool) (base merge x : ℕ) (b : Builder F) : Type 0 where
    pub opened : more ≡ true → Open b.blocks x
    pub apart : more ≡ true → x ≢ merge
    pub new : more ≡ true → base ≤ x
    pub same : more ≡ false → x ≡ merge

  -- A state with a new block, or the same.
  pub record Picks (more : Bool) (merge : ℕ) (b : Builder F) (p : Builder F × ℕ) : Type 0 where
    pub valid : IsValid p.0
    pub grows : (c : ℕ) → Grows c b.blocks p.0.blocks
    pub current : p.0.current ≡ b.current
    pub loops : p.0.loop_exit_stack ≡ b.loop_exit_stack
    pub handlers : p.0.handler_stack ≡ b.handler_stack
    pub opened : Open p.0.blocks p.1
    pub other : Other more (length b.blocks) merge p.1 p.0

  pub block_or-Picks :
      (more : Bool) (merge : ℕ) (b : Builder F)
      → IsValid b
      → Open b.blocks merge
      → Picks more merge b (block_or more merge b)
  block_or-Picks false merge b v o = record {
    valid = v;
    grows = λ c. Grows-refl c b.blocks;
    current = refl;
    loops = refl;
    handlers = refl;
    opened = o;
    other = record { opened = λ h. cc; apart = λ h. cc; new = λ h. cc; same = λ h. refl };
  }
  block_or-Picks true merge b v o =
      let a = new_block-Adds b v in
      record {
        valid = a.valid;
        grows = a.grows;
        current = a.current;
        loops = a.loops;
        handlers = a.handlers;
        opened = a.opened;
        other = record {
          opened = λ h. a.opened;
          apart = λ h e. omega (arith, e, a.number, Open-lt o);
          new = λ h. omega (arith, a.number);
          same = λ h. cc;
        };
      }

  pub Other-Grows :
      {more : Bool} {d base base' merge x : ℕ} {b b' : Builder F}
      → Grows d b.blocks b'.blocks
      → (more ≡ true → x ≢ d)
      → base' ≤ base
      → Other more base merge x b
      → Other more base' merge x b'
  Other-Grows g n le other = record {
    opened = λ h. Open-Grows g (n h) (other.opened h);
    apart = other.apart;
    new = λ h. omega (arith, le, other.new h);
    same = other.same;
  }

  pub Other-ne :
      {more : Bool} {base merge x y : ℕ} {b : Builder F}
      → Other more base merge x b
      → y < base
      → more ≡ true
      → x ≢ y
  Other-ne other l h e = omega (arith, e, l, other.new h)

  pub Other-positive :
      {more : Bool} {base merge x : ℕ} {b : Builder F}
      → Other more base merge x b
      → 0 < merge
      → 0 < base
      → 0 < x
  Other-positive {more} other pm pb = elim (Bool-cases more) [
    | inl h ↦ omega (arith, other.new h, pb)
    | inr h ↦ omega (arith, other.same h, pm)
  ]

  -- What an arm leaves.
  pub record Arm (c : ℕ) (b0 : Builder F) (more : Bool) (merge : ℕ) (r : Run (Builder F × ℕ))
      : Type 0 where
    pub after : Builder F
    pub otherwise : ℕ
    pub runs : r ≡ done (after, otherwise)
    pub since : Since c b0 after
    pub merge_open : Open after.blocks merge
    pub other : Other more (length b0.blocks) merge otherwise after

  -- An arm in the block `d`, which is `c` or one of the statement's.
  pub lower_arm-Arm :
      (l : Bool) (lower : Builder F → Run (Builder F)) (cond : HirExpr F) (more : Bool)
      (merge c d : ℕ) (b0 b : Builder F)
      → Sound l lower
      → InLoop l b.loop_exit_stack
      → IsValid b
      → Grows c b0.blocks b.blocks
      → b.loop_exit_stack ≡ b0.loop_exit_stack
      → b.handler_stack ≡ b0.handler_stack
      → ((d ≡ c) ⊎ (length b0.blocks ≤ d))
      → b.current ≡ some d
      → Open b.blocks d
      → Open b.blocks merge
      → merge ≢ d
      → 0 < merge
      → Arm c b0 more merge (lower_arm lower cond more merge b)
  unfolding lower_arm
  lower_arm-Arm l lower cond more merge c d b0 b sound loop v g ls hs new at o om n pos =
      let a = new_block-Adds b v in
      let (b1, then_block) = new_block b in
      let om1 = Open-Adds merge a om in
      let p = block_or-Picks more merge b1 a.valid om1 in
      let (b2, false_block) = block_or more merge b1 in
      let ge : 0 < false_block = Other-positive p.other pos (omega (arith, a.longer)) in
      let br =
        lower_expr_as_branch-Closes cond then_block false_block d b2 p.valid
          (p.current ∙ a.current ∙ at)
          (Open-Grows (p.grows (suc d)) (λ e. omega (arith, e)) (Open-Adds d a o))
          (a.positive, omega (arith, a.number, a.longer, (p.grows 0).longer))
          (ge, Open-lt p.opened) in
      let open_then =
        Open-Grows br.grows (λ e. omega (arith, e, Open-lt o, a.number))
          (Open-Grows (p.grows (suc then_block)) (λ e. omega (arith, e)) a.opened) in
      let om3 =
        Open-Grows br.grows n (Open-Grows (p.grows (suc merge)) (λ e. omega (arith, e)) om1) in
      let part =
        lower_part-Closes l lower then_block merge br.after sound br.valid
          (InLoop-eq l (br.loops ∙ p.loops ∙ a.loops) loop) br.closed open_then
          (pos, Open-lt om3) in
      let le : length b0.blocks ≤ length b.blocks = g.longer in
      let other_kept : Other more (length b1.blocks) merge false_block br.after =
        Other-Grows br.grows (Other-ne p.other (omega (arith, Open-lt o, a.longer))) (omega arith)
          p.other in
      record {
        after = part.after;
        otherwise = false_block;
        runs = rw (br.runs, part.runs) refl;
        since = record {
          valid = part.valid;
          grows =
              Grows-trans c then_block
                (Grows-trans c d
                  (Grows-trans c c g (Grows-trans c c (a.grows c) (p.grows c) (inl refl))
                    (inl refl))
                  br.grows new)
                part.grows (inr (omega (arith, le, a.number)));
          closed = part.closed;
          loops = part.loops ∙ br.loops ∙ p.loops ∙ a.loops ∙ ls;
          handlers = part.handlers ∙ br.handlers ∙ p.handlers ∙ a.handlers ∙ hs;
        };
        merge_open = Open-Grows part.grows (λ e. omega (arith, e, a.number, Open-lt om)) om3;
        other =
            Other-Grows part.grows (Other-ne p.other (omega (arith, a.number, a.longer)))
              (omega (arith, le, a.longer)) other_kept;
      }
