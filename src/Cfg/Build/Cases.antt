-- ===== src/Cfg/Build/Cases.antt =====
-- CASE and TYPECASE lower soundly (src/cfg/build.rs).
use mx.Common.{
  ℕ, zero, suc, ◌≤◌, ◌<◌, ◌≡◌, ◌≢◌, refl, ◌∙◌, Bool, true, not, some, List, [], ◌∷◌, arith, length,
  inl,
}
use mx.Common.Runs.{Run, done, ◌>>=◌}
use mx.Symtab.{SourceLoc}
use mx.Hir.{
  HirExpr, ElseBody, no_else, else_body, HirCaseBranches, HirTypeCaseBranches, case_stmt,
  typecase_stmt,
}
use mx.Cfg.{SwitchArm, switch, successors, is_empty, BasicBlock}
use mx.Cfg.Verify.{arms_present}
use mx.Cfg.Build.{Builder, new_block, seal, start_if_reached}
use mx.Cfg.Build.Parts.{case_arms, typecase_arms}
use mx.Cfg.Build.Lower.{lower_stmts, lower_kind, lower_default}
use mx.Cfg.Build.Inv.{AllFit-append, Open, Grows-trans, Open-Grows, Open-lt}
use mx.Cfg.Build.Blocks.{IsValid, Lowers, new_block-Adds}
use mx.Cfg.Build.Steps.{seal-Closes}
use mx.Cfg.Build.Branches.{Open-Adds}
use mx.Cfg.Build.Sound.{Sound, InLoop, Since}
use mx.Cfg.Build.Choices.{ElseSound, Part, lower_part-Part, Part-Lowers}
use mx.Cfg.Build.Arms.{
  arm_targets, TargetsOpen, TargetsOpen-Grows, TargetsOpen-AllFit, Arms, count_branches,
  count_type_branches, Labelled, TypeLabelled, case_arms-Arms, typecase_arms-Arms,
}
use mx.Cfg.Build.CaseBodies.{
  BranchesSound, TypeBranchesSound, Switched, Branches, lower_branches-Branches,
  lower_type_branches-Branches, done-Sound,
}

module _ {F : Type 0} where
  lower_default-Part :
      (l : Bool) (els : ElseBody F) (merge default_block c : ℕ) (b0 b : Builder F)
      → ElseSound l els
      → InLoop l b0.loop_exit_stack
      → Since c b0 b
      → 0 < merge
      → Open b.blocks merge
      → Open b.blocks default_block
      → default_block ≢ merge
      → length b0.blocks ≤ default_block
      → Part c b0 merge (lower_default els default_block merge b)
  unfolding lower_default ElseSound
  lower_default-Part l no_else merge default_block c b0 b sound loop st pos om od n le =
      lower_part-Part l done default_block merge c b0 b (done-Sound l) loop st pos om od n le
  lower_default-Part l (else_body body) merge default_block c b0 b sound loop st pos om od n le =
      lower_part-Part l (lower_stmts body) default_block merge c b0 b sound loop st pos om od n le

  targets-nonempty :
      (bs : List (BasicBlock F)) (lo n : ℕ) (arms : List (SwitchArm F))
      → 0 < n
      → TargetsOpen bs lo n (arm_targets arms)
      → not (is_empty arms) ≡ true
  targets-nonempty bs lo zero arms pos h = absurd (omega (arith, pos))
  targets-nonempty bs lo (suc n) [] pos h = absurd h
  targets-nonempty bs lo (suc n) (arm ∷ arms) pos h = refl

  -- The switch itself; `p` are the arms.
  pub record Starts (c : ℕ) (b : Builder F) (n merge default_block lo : ℕ) (ts : List ℕ)
      (r : Run (Builder F)) : Type 0 where
    pub after : Builder F
    pub runs : r ≡ done after
    pub switched : Switched c b merge default_block lo n ts after
    pub merge_positive : 0 < merge
    pub merge_ge : length b.blocks ≤ merge
    pub merge_lt : merge < default_block
    pub default_lt : default_block < lo

  switch-Starts :
      (value : HirExpr F) (n c : ℕ) (b : Builder F) (p : Builder F × List (SwitchArm F))
      → IsValid b
      → b.current ≡ some c
      → Open b.blocks c
      → 0 < n
      → Arms (new_block (new_block b).0).0 n p
      → Starts c b n
          (new_block b).1
          (new_block (new_block b).0).1
          (length (new_block (new_block b).0).0.blocks)
          (arm_targets p.1)
          (seal (switch value p.1 (new_block (new_block b).0).1) p.0)
  unfolding successors arms_present
  switch-Starts value n c b p v at o pos r =
      let (b1, merge) = new_block b in
      let a1 = new_block-Adds b v in
      let (b2, default_block) = new_block b1 in
      let a2 = new_block-Adds b1 a1.valid in
      let lo = length b2.blocks in
      let om =
        Open-Grows (r.grows (suc merge)) (λ e. omega (arith, e)) (Open-Adds merge a2 a1.opened) in
      let od = Open-Grows (r.grows (suc default_block)) (λ e. omega (arith, e)) a2.opened in
      let oc =
        Open-Grows (r.grows (suc c)) (λ e. omega (arith, e)) (Open-Adds c a2 (Open-Adds c a1 o)) in
      let s =
        seal-Closes (switch value p.1 default_block) c p.0 r.valid
          (r.current ∙ a2.current ∙ a1.current ∙ at) oc
          (AllFit-append (length p.0.blocks) (arm_targets p.1) (default_block ∷ [])
            (TargetsOpen-AllFit p.0.blocks lo n (arm_targets p.1) (omega (arith, a2.longer))
              r.targets)
            ((a2.positive, Open-lt od), tt))
          (rw (targets-nonempty p.0.blocks lo n p.1 pos r.targets, r.all_labelled) refl) in
      record {
        after = s.after;
        runs = s.runs;
        switched = record {
          since = record {
            valid = s.valid;
            grows =
                Grows-trans c c (a1.grows c)
                  (Grows-trans c c (a2.grows c) (Grows-trans c c (r.grows c) s.grows (inl refl))
                    (inl refl))
                  (inl refl);
            closed = s.closed;
            loops = s.loops ∙ r.loops ∙ a2.loops ∙ a1.loops;
            handlers = s.handlers ∙ r.handlers ∙ a2.handlers ∙ a1.handlers;
          };
          merge_open = Open-Grows s.grows (λ e. omega (arith, e, a1.number, Open-lt o)) om;
          default_open =
              Open-Grows s.grows (λ e. omega (arith, e, a2.number, a1.longer, Open-lt o)) od;
          targets =
              TargetsOpen-Grows lo n (arm_targets p.1) s.grows
                (omega (arith, a1.longer, a2.longer, Open-lt o)) r.targets;
        };
        merge_positive = a1.positive;
        merge_ge = omega (arith, a1.number);
        merge_lt = omega (arith, a1.number, a2.number, a1.longer);
        default_lt = omega (arith, a2.number, a2.longer);
      }

  -- The branches, the ELSE and the end.
  Branches-Lowers :
      (l : Bool) (els : ElseBody F) (c n merge default_block lo : ℕ) (ts : List ℕ) (b : Builder F)
      {r r1 r2 : Run (Builder F)} (st : Starts c b n merge default_block lo ts r)
      → ElseSound l els
      → InLoop l b.loop_exit_stack
      → (br : Branches c b merge default_block r1)
      → r2 ≡ (lower_default els default_block merge br.after >>= start_if_reached merge)
      → Lowers c b r2
  Branches-Lowers l els c n merge default_block lo ts b st sound loop br e =
      let d =
        lower_default-Part l els merge default_block c b br.after sound loop br.since
          st.merge_positive br.merge_open br.default_open (λ is. omega (arith, is, st.merge_lt))
          (omega (arith, st.merge_ge, st.merge_lt)) in
      Part-Lowers d st.merge_ge (e ∙ rw d.runs refl)

  pub case-Sound :
      (l : Bool) (value : HirExpr F) (branches : HirCaseBranches F) (els : ElseBody F)
      (loc : SourceLoc)
      → 0 < count_branches branches
      → Labelled branches
      → BranchesSound l branches
      → ElseSound l els
      → Sound l (lower_kind (case_stmt value branches els) loc)
  unfolding lower_kind
  case-Sound l value branches els loc pos labels sound else_sound c b v loop at o =
      let (b1, merge) = new_block b in
      let a1 = new_block-Adds b v in
      let (b2, default_block) = new_block b1 in
      let a2 = new_block-Adds b1 a1.valid in
      let p = case_arms branches b2 in
      let st =
        switch-Starts value (count_branches branches) c b p v at o pos
          (case_arms-Arms branches b2 a2.valid labels) in
      let br =
        lower_branches-Branches l merge default_block c b loop st.merge_positive branches p.1
          (length b2.blocks) st.after sound (omega (arith, st.merge_lt, st.default_lt))
          st.default_lt (omega (arith, st.merge_ge, st.merge_lt, st.default_lt)) st.switched in
      Branches-Lowers l els c (count_branches branches) merge default_block (length b2.blocks)
        (arm_targets p.1) b st else_sound loop br (rw (st.runs, br.runs) refl)

  pub typecase-Sound :
      (l : Bool) (value : HirExpr F) (branches : HirTypeCaseBranches F) (els : ElseBody F)
      (loc : SourceLoc)
      → 0 < count_type_branches branches
      → TypeLabelled branches
      → TypeBranchesSound l branches
      → ElseSound l els
      → Sound l (lower_kind (typecase_stmt value branches els) loc)
  unfolding lower_kind
  typecase-Sound l value branches els loc pos labels sound else_sound c b v loop at o =
      let (b1, merge) = new_block b in
      let a1 = new_block-Adds b v in
      let (b2, default_block) = new_block b1 in
      let a2 = new_block-Adds b1 a1.valid in
      let p = typecase_arms branches b2 in
      let st =
        switch-Starts value (count_type_branches branches) c b p v at o pos
          (typecase_arms-Arms branches b2 a2.valid labels) in
      let br =
        lower_type_branches-Branches l merge default_block c b loop st.merge_positive value branches
          p.1 (length b2.blocks) st.after sound (omega (arith, st.merge_lt, st.default_lt))
          st.default_lt (omega (arith, st.merge_ge, st.merge_lt, st.default_lt)) st.switched in
      Branches-Lowers l els c (count_type_branches branches) merge default_block (length b2.blocks)
        (arm_targets p.1) b st else_sound loop br (rw (st.runs, br.runs) refl)
