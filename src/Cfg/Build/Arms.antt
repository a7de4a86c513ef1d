-- ===== src/Cfg/Build/Arms.antt =====
-- The arms of a switch and their blocks (`lower_case`, `lower_typecase` of src/cfg/build.rs).
use mx.Common.{
  ℕ, zero, suc, ◌≤◌, ◌<◌, ◌≡◌, refl, ◌∙◌, true, false, not, List, [], ◌∷◌, map, all, arith, length,
  inl,
}
use mx.Hir
use mx.Hir.{
  HirExpr, HirStmts, ElseBody, no_else, else_body, HirCaseBranches, no_branch, HirTypeCaseBranches,
  no_type_branch, type_branch, case_stmt, typecase_stmt,
}
use mx.Cfg.{SwitchArm, is_empty, BasicBlock, type_label}
use mx.Cfg.Verify.{labelled}
use mx.Cfg.Build.{Builder, new_block}
use mx.Cfg.Build.Parts.{case_label, case_arms, typecase_arms}
use mx.Cfg.Build.Inv.{AllFit, Open, Grows, Grows-refl, Grows-trans, Open-Grows, Open-lt}
use mx.Cfg.Build.Blocks.{IsValid, new_block-Adds}

map-is_empty :
    {A B : Type 0} (f : A → B) (xs : List A)
    → is_empty xs ≡ false
    → not (is_empty (map f xs)) ≡ true
map-is_empty f [] h = cc
map-is_empty f (x ∷ xs) h = refl

module _ {F : Type 0} where
  abbrev pub arm_targets : List (SwitchArm F) → List ℕ
  arm_targets arms = map (λ arm. arm.target) arms

  -- As many open blocks, in increasing order from `lo` on.
  abbrev pub TargetsOpen : List (BasicBlock F) → ℕ → ℕ → List ℕ → Type 0
  TargetsOpen bs lo zero [] = Unit
  TargetsOpen bs lo zero (t ∷ ts) = ⊥
  TargetsOpen bs lo (suc n) [] = ⊥
  TargetsOpen bs lo (suc n) (t ∷ ts) = (lo ≤ t) × (Open bs t × TargetsOpen bs (suc t) n ts)

  pub TargetsOpen-Grows :
      {d : ℕ} {bs bs' : List (BasicBlock F)} (lo n : ℕ) (ts : List ℕ)
      → Grows d bs bs'
      → d < lo
      → TargetsOpen bs lo n ts
      → TargetsOpen bs' lo n ts
  TargetsOpen-Grows lo zero [] g lt h = tt
  TargetsOpen-Grows lo zero (t ∷ ts) g lt h = absurd h
  TargetsOpen-Grows lo (suc n) [] g lt h = absurd h
  TargetsOpen-Grows lo (suc n) (t ∷ ts) g lt h = (
    h.0,
    (
      Open-Grows g (λ e. omega (arith, e, lt, h.0)) h.1.0,
      TargetsOpen-Grows (suc t) n ts g (omega (arith, lt, h.0)) h.1.1,
    ),
  )

  pub TargetsOpen-le :
      (bs : List (BasicBlock F)) (lo lo' n : ℕ) (ts : List ℕ)
      → lo' ≤ lo
      → TargetsOpen bs lo n ts
      → TargetsOpen bs lo' n ts
  TargetsOpen-le bs lo lo' zero [] le h = tt
  TargetsOpen-le bs lo lo' zero (t ∷ ts) le h = absurd h
  TargetsOpen-le bs lo lo' (suc n) [] le h = absurd h
  TargetsOpen-le bs lo lo' (suc n) (t ∷ ts) le h = (omega (arith, le, h.0), h.1)

  pub TargetsOpen-AllFit :
      (bs : List (BasicBlock F)) (lo n : ℕ) (ts : List ℕ)
      → 0 < lo
      → TargetsOpen bs lo n ts
      → AllFit (length bs) ts
  TargetsOpen-AllFit bs lo zero [] pos h = tt
  TargetsOpen-AllFit bs lo zero (t ∷ ts) pos h = absurd h
  TargetsOpen-AllFit bs lo (suc n) [] pos h = absurd h
  TargetsOpen-AllFit bs lo (suc n) (t ∷ ts) pos h = (
    (omega (arith, pos, h.0), Open-lt h.1.0),
    TargetsOpen-AllFit bs (suc t) n ts (omega arith) h.1.1,
  )

  -- What making the arms does; `n` is the number of branches.
  pub record Arms (b : Builder F) (n : ℕ) (p : Builder F × List (SwitchArm F)) : Type 0 where
    pub valid : IsValid p.0
    pub grows : (c : ℕ) → Grows c b.blocks p.0.blocks
    pub current : p.0.current ≡ b.current
    pub loops : p.0.loop_exit_stack ≡ b.loop_exit_stack
    pub handlers : p.0.handler_stack ≡ b.handler_stack
    pub targets : TargetsOpen p.0.blocks (length b.blocks) n (arm_targets p.1)
    pub all_labelled : all labelled p.1 ≡ true

  no-Arms : (b : Builder F) → IsValid b → Arms b 0 (b, [])
  no-Arms b v = record {
    valid = v;
    grows = λ c. Grows-refl c b.blocks;
    current = refl;
    loops = refl;
    handlers = refl;
    targets = tt;
    all_labelled = refl;
  }

  one-Arms :
      (arm : SwitchArm F) (n : ℕ) (b : Builder F) {p : Builder F × List (SwitchArm F)}
      → IsValid b
      → arm.target ≡ (new_block b).1
      → labelled arm ≡ true
      → Arms (new_block b).0 n p
      → Arms b (suc n) (p.0, arm ∷ p.1)
  one-Arms arm n b {p} v at lab r =
      let a = new_block-Adds b v in
      record {
        valid = r.valid;
        grows = λ c. Grows-trans c c (a.grows c) (r.grows c) (inl refl);
        current = r.current ∙ a.current;
        loops = r.loops ∙ a.loops;
        handlers = r.handlers ∙ a.handlers;
        targets = (
          omega (arith, at, a.number),
          (
            rw at (Open-Grows (r.grows (suc (new_block b).1)) (λ e. omega (arith, e)) a.opened),
            TargetsOpen-le p.0.blocks (length (new_block b).0.blocks) (suc arm.target) n
                (arm_targets p.1) (omega (arith, at, a.number, a.longer)) r.targets,
          ),
        );
        all_labelled = rw (lab, r.all_labelled) refl;
      }

  unfoldable pub count_branches : HirCaseBranches F → ℕ
  count_branches no_branch = 0
  count_branches (Hir.branch labels body rest) = suc (count_branches rest)

  unfoldable pub count_type_branches : HirTypeCaseBranches F → ℕ
  count_type_branches no_type_branch = 0
  count_type_branches (type_branch types var body rest) = suc (count_type_branches rest)

  -- Each branch has a label.
  unfoldable pub Labelled : HirCaseBranches F → Type 0
  Labelled no_branch = Unit
  Labelled (Hir.branch labels body rest) = (is_empty labels ≡ false) × Labelled rest

  unfoldable pub TypeLabelled : HirTypeCaseBranches F → Type 0
  TypeLabelled no_type_branch = Unit
  TypeLabelled (type_branch types var body rest) = (is_empty types ≡ false) × TypeLabelled rest

  pub case_arms-Arms :
      (branches : HirCaseBranches F) (b : Builder F)
      → IsValid b
      → Labelled branches
      → Arms b (count_branches branches) (case_arms branches b)
  unfolding case_arms count_branches Labelled
  case_arms-Arms no_branch b v h = no-Arms b v
  case_arms-Arms (Hir.branch labels body rest) b v h =
      one-Arms (record { labels = map case_label labels; target = (new_block b).1 })
        (count_branches rest) b v refl (map-is_empty case_label labels h.0)
        (case_arms-Arms rest (new_block b).0 (new_block-Adds b v).valid h.1)

  pub typecase_arms-Arms :
      (branches : HirTypeCaseBranches F) (b : Builder F)
      → IsValid b
      → TypeLabelled branches
      → Arms b (count_type_branches branches) (typecase_arms branches b)
  unfolding typecase_arms count_type_branches TypeLabelled
  typecase_arms-Arms no_type_branch b v h = no-Arms b v
  typecase_arms-Arms (type_branch types var body rest) b v h =
      one-Arms (record { labels = map (λ sid. type_label sid var) types; target = (new_block b).1 })
        (count_type_branches rest) b v refl (map-is_empty (λ sid. type_label sid var) types h.0)
        (typecase_arms-Arms rest (new_block b).0 (new_block-Adds b v).valid h.1)
