-- ===== src/Cfg.antt =====
-- The control flow graph of a procedure body (src/cfg/mod.rs): blocks, terminators and their targets.
pub mod Preds
pub mod Verify
pub mod Cleanup
pub mod Dataflow
pub mod Build
mod Tests
use mx.Common.{
  ℕ, Bool, true, false, ◌||◌, ◌==◌, if◌then◌else◌, Text, Option, none, some, List, [], ◌∷◌, ◌++◌,
  map, get_elem?,
}
use mx.Common.Runs.{Run, done, panic, ◌>>=◌, or_panic}
use mx.Hir.{HirExpr, HirStmt, SymbolId}

pub data CaseLabel (F : Type 0) : Type 0 where
  single : HirExpr F → CaseLabel F
  range : HirExpr F → HirExpr F → CaseLabel F
  type_label : SymbolId → Option Text → CaseLabel F

pub record SwitchArm (F : Type 0) : Type 0 where
  pub labels : List (CaseLabel F)
  pub target : ℕ

-- A `BlockId` is a number.
pub data Terminator (F : Type 0) : Type 0 where
  goto : ℕ → Terminator F
  branch : HirExpr F → ℕ → ℕ → Terminator F
  switch : HirExpr F → List (SwitchArm F) → ℕ → Terminator F
  return raise : Option (HirExpr F) → Terminator F

pub record BasicBlock (F : Type 0) : Type 0 where
  pub id : ℕ
  pub stmts : List (HirStmt F)
  pub terminator : Option (Terminator F)
  pub handler : Option ℕ

pub record Cfg (F : Type 0) : Type 0 where
  pub blocks : List (BasicBlock F)
  pub entry : ℕ
  pub preds : List (List ℕ)
  pub preds_valid : Bool

abbrev pub replaced : ℕ → ℕ → ℕ → ℕ
replaced old new t = if t == old then new else t

-- `contains` on a vector of blocks.
abbrev pub contains : List ℕ → ℕ → Bool
contains [] b = false
contains (x ∷ xs) b = x == b || contains xs b

abbrev pub is_some {ℓ} : {A : Type ℓ} → Option A → Bool
is_some none = false
is_some (some a) = true

abbrev pub is_empty {ℓ} : {A : Type ℓ} → List A → Bool
is_empty [] = true
is_empty (x ∷ xs) = false

module _ {F : Type 0} where
  unfoldable pub successors : Terminator F → List ℕ
  successors (goto b) = b ∷ []
  successors (branch c t f) = t ∷ f ∷ []
  successors (switch e arms default) = map (λ arm. arm.target) arms ++ default ∷ []
  successors (return e) = []
  successors (raise e) = []

  -- The successors of a block that may be open.
  abbrev pub block_successors : Option (Terminator F) → List ℕ
  block_successors none = []
  block_successors (some t) = successors t

  -- `map[*t]` at every target: a number out of range panics.
  unfoldable pub remap_arms : List ℕ → List (SwitchArm F) → Run (List (SwitchArm F))
  remap_arms ids [] = done []
  remap_arms ids (arm ∷ arms) = do
    t ← or_panic (get_elem? ids arm.target)
    rest ← remap_arms ids arms
    done ((record arm { target = t }) ∷ rest)

  unfoldable pub remap_targets : List ℕ → Terminator F → Run (Terminator F)
  remap_targets ids (goto b) = do t ← or_panic (get_elem? ids b); done (goto t)
  remap_targets ids (branch c t f) = do
    t' ← or_panic (get_elem? ids t)
    f' ← or_panic (get_elem? ids f)
    done (branch c t' f')
  remap_targets ids (switch e arms default) = do
    arms' ← remap_arms ids arms
    d ← or_panic (get_elem? ids default)
    done (switch e arms' d)
  remap_targets ids (return e) = done (return e)
  remap_targets ids (raise e) = done (raise e)

  unfoldable pub replace_arms : ℕ → ℕ → List (SwitchArm F) → List (SwitchArm F)
  replace_arms old new [] = []
  replace_arms old new (arm ∷ arms) =
      (record arm { target = replaced old new arm.target }) ∷ replace_arms old new arms

  unfoldable pub replace_target : ℕ → ℕ → Terminator F → Terminator F
  replace_target old new (goto b) = goto (replaced old new b)
  replace_target old new (branch c t f) = branch c (replaced old new t) (replaced old new f)
  replace_target old new (switch e arms default) =
      switch e (replace_arms old new arms) (replaced old new default)
  replace_target old new (return e) = return e
  replace_target old new (raise e) = raise e
