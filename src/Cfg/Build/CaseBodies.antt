-- ===== src/Cfg/Build/CaseBodies.antt =====
-- The bodies of CASE and TYPECASE (src/cfg/build.rs).
use mx.Common.{
  ℕ, suc, ◌≤◌, ◌<◌, ◌≡◌, refl, Bool, Text, Option, none, some, List, [], ◌∷◌, arith, length, inl,
  inr,
}
use mx.Common.Runs.{Run, done, ◌>>=◌}
use mx.Types.Registry.{ty_address}
use mx.Hir
use mx.Hir.{
  HirExpr, HirStmts, ElseBody, no_else, else_body, HirCaseBranches, no_branch, HirTypeCaseBranches,
  no_type_branch, type_branch, case_stmt, typecase_stmt,
}
use mx.Cfg.{SwitchArm}
use mx.Cfg.Build.{Builder}
use mx.Cfg.Build.Parts.{bind_variable, lower_part}
use mx.Cfg.Build.Lower.{lower_stmts, lower_branches, lower_type_branches}
use mx.Cfg.Build.Inv.{Open, Grows-refl, Open-Grows, Open-lt}
use mx.Cfg.Build.Blocks.{still}
use mx.Cfg.Build.Sound.{
  Sound, InLoop, InLoop-eq, lower_part-Closes, Since, Since-Closes, Lowers-behind,
}
use mx.Cfg.Build.Rounds.{push_assign-Keeps}
use mx.Cfg.Build.Choices.{Part}
use mx.Cfg.Build.Arms.{
  arm_targets, TargetsOpen, TargetsOpen-Grows, count_branches, count_type_branches,
}

module _ {F : Type 0} where
  unfoldable pub BranchesSound : Bool → HirCaseBranches F → Type 0
  BranchesSound l no_branch = Unit
  BranchesSound l (Hir.branch labels body rest) = Sound l (lower_stmts body) × BranchesSound l rest

  unfoldable pub TypeBranchesSound : Bool → HirTypeCaseBranches F → Type 0
  TypeBranchesSound l no_type_branch = Unit
  TypeBranchesSound l (type_branch types var body rest) =
      Sound l (lower_stmts body) × TypeBranchesSound l rest

  -- The state behind the switch: every block of the statement is open.
  pub record Switched (c : ℕ) (b0 : Builder F) (merge default_block lo n : ℕ) (ts : List ℕ)
      (b : Builder F) : Type 0 where
    pub since : Since c b0 b
    pub merge_open : Open b.blocks merge
    pub default_open : Open b.blocks default_block
    pub targets : TargetsOpen b.blocks lo n ts

  -- One branch.
  branch-Switched :
      (l : Bool) (lower : Builder F → Run (Builder F)) (merge default_block t c lo n : ℕ)
      (ts : List ℕ) (b0 b : Builder F)
      → Sound l lower
      → InLoop l b0.loop_exit_stack
      → 0 < merge
      → merge < lo
      → default_block < lo
      → length b0.blocks ≤ lo
      → Switched c b0 merge default_block lo (suc n) (t ∷ ts) b
      → (part : Part c b0 merge (lower_part lower t merge b)) × Switched c b0 merge default_block
          (suc t)
          n
          ts
          part.after
  branch-Switched l lower merge default_block t c lo n ts b0 b sound loop pos lm ld lb sw =
      let le = sw.targets.0 in
      let part =
        lower_part-Closes l lower t merge b sound sw.since.valid (InLoop-eq l sw.since.loops loop)
          sw.since.closed sw.targets.1.0 (pos, Open-lt sw.merge_open) in
      let om = Open-Grows part.grows (λ e. omega (arith, e, lm, le)) sw.merge_open in
      let since = Since-Closes sw.since (inr (omega (arith, lb, le))) part in
      (
        record { after = part.after; runs = part.runs; since = since; merge_open = om },
        record {
          since = since;
          merge_open = om;
          default_open = Open-Grows part.grows (λ e. omega (arith, e, ld, le)) sw.default_open;
          targets = TargetsOpen-Grows (suc t) n ts part.grows (omega arith) sw.targets.1.1;
        },
      )

  bound-Sound :
      (l : Bool) (var : Option Text) (value : HirExpr F) (lower : Builder F → Run (Builder F))
      → Sound l lower
      → Sound l (λ b. bind_variable var value b >>= lower)
  bound-Sound l none value lower sound c b v loop at o = sound c b v loop at o
  bound-Sound l (some var) value lower sound c b v loop at o =
      let k = push_assign-Keeps var ty_address value c b v at o in
      Lowers-behind k (sound c k.after k.valid (InLoop-eq l k.loops loop) k.current k.opened)
        (rw k.runs refl)

  -- What all the branches leave.
  pub record Branches (c : ℕ) (b0 : Builder F) (merge default_block : ℕ) (r : Run (Builder F))
      : Type 0 where
    pub after : Builder F
    pub runs : r ≡ done after
    pub since : Since c b0 after
    pub merge_open : Open after.blocks merge
    pub default_open : Open after.blocks default_block

  module _ (l : Bool) (merge default_block c : ℕ) (b0 : Builder F)
      (loop : InLoop l b0.loop_exit_stack) (pos : 0 < merge) where
    pub lower_branches-Branches :
        (branches : HirCaseBranches F) (arms : List (SwitchArm F)) (lo : ℕ) (b : Builder F)
        → BranchesSound l branches
        → merge < lo
        → default_block < lo
        → length b0.blocks ≤ lo
        → Switched c b0 merge default_block lo (count_branches branches) (arm_targets arms) b
        → Branches c b0 merge default_block (lower_branches branches arms merge b)
    unfolding lower_branches count_branches BranchesSound
    lower_branches-Branches no_branch arms lo b sound lm ld lb sw = record {
      after = b;
      runs = refl;
      since = sw.since;
      merge_open = sw.merge_open;
      default_open = sw.default_open;
    }
    lower_branches-Branches (Hir.branch labels body rest) [] lo b sound lm ld lb sw =
        absurd sw.targets
    lower_branches-Branches (Hir.branch labels body rest) (arm ∷ arms) lo b sound lm ld lb sw =
        let (part, sw') =
          branch-Switched l (lower_stmts body) merge default_block arm.target c lo
            (count_branches rest) (arm_targets arms) b0 b sound.0 loop pos lm ld lb sw in
        let le = sw.targets.0 in
        let next =
          lower_branches-Branches rest arms (suc arm.target) part.after sound.1
            (omega (arith, lm, le)) (omega (arith, ld, le)) (omega (arith, lb, le)) sw' in
        record {
          after = next.after;
          runs = rw part.runs next.runs;
          since = next.since;
          merge_open = next.merge_open;
          default_open = next.default_open;
        }

    pub lower_type_branches-Branches :
        (value : HirExpr F) (branches : HirTypeCaseBranches F) (arms : List (SwitchArm F)) (lo : ℕ)
        (b : Builder F)
        → TypeBranchesSound l branches
        → merge < lo
        → default_block < lo
        → length b0.blocks ≤ lo
        → Switched c b0 merge default_block lo (count_type_branches branches) (arm_targets arms) b
        → Branches c b0 merge default_block (lower_type_branches branches value arms merge b)
    unfolding lower_type_branches count_type_branches TypeBranchesSound
    lower_type_branches-Branches value no_type_branch arms lo b sound lm ld lb sw = record {
      after = b;
      runs = refl;
      since = sw.since;
      merge_open = sw.merge_open;
      default_open = sw.default_open;
    }
    lower_type_branches-Branches value (type_branch types var body rest) [] lo b sound lm ld lb sw =
        absurd sw.targets
    lower_type_branches-Branches value (type_branch types var body rest) (arm ∷ arms) lo b sound lm
          ld lb sw =
        let (part, sw') =
          branch-Switched l (λ b'. bind_variable var value b' >>= lower_stmts body) merge
            default_block arm.target c lo (count_type_branches rest) (arm_targets arms) b0 b
            (bound-Sound l var value (lower_stmts body) sound.0) loop pos lm ld lb sw in
        let le = sw.targets.0 in
        let next =
          lower_type_branches-Branches value rest arms (suc arm.target) part.after sound.1
            (omega (arith, lm, le)) (omega (arith, ld, le)) (omega (arith, lb, le)) sw' in
        record {
          after = next.after;
          runs = rw part.runs next.runs;
          since = next.since;
          merge_open = next.merge_open;
          default_open = next.default_open;
        }

  pub done-Sound : (l : Bool) → Sound {F = F} l done
  done-Sound l c b v loop at o = record {
    after = b;
    runs = refl;
    valid = v;
    grows = Grows-refl c b.blocks;
    now = still c at o (inl refl);
    loops = refl;
    handlers = refl;
  }
