-- ===== src/Cfg/Build/Verified.antt =====
-- `build_cfg` returns a graph that passes `verify` (src/cfg/build.rs).
use mx.Common.{
  ℕ, zero, suc, ◌≡◌, refl, sym, ap, true, false, Option, none, some, some_inj, List, [], ◌∷◌, arith,
  length, get_elem?, all,
}
use mathlib.Core.Path.{subst}
use mx.Common.Runs.{done}
use mx.Hir.{HirStmts}
use mx.Cfg.{Terminator, BasicBlock, Cfg, block_successors, successors}
use mx.Cfg.Verify.{sealed, arms_present, verify}
use mx.Cfg.Verify.Passes.{verify-done}
use mx.Cfg.Build.{new}
use mx.Cfg.Build.Finish.{or_return, seal_all, finish, build_cfg}
use mx.Cfg.Build.Inv.{HandlerFits, BlockFits, Inv, Open}
use mx.Cfg.Build.Blocks.{IsValid}
use mx.Cfg.Build.Allowed.{Allowed}
use mx.Cfg.Build.Whole.{lower_stmts-Sound}

pub new-current : (G : Type 0) → (new {F = G}).current ≡ some 0
unfolding new
new-current G = refl

module _ {F : Type 0} where
  abbrev with_end : BasicBlock F → BasicBlock F
  with_end block = record block { terminator = some (or_return block.terminator) }

  length-seal_all : (bs : List (BasicBlock F)) → length (seal_all bs) ≡ length bs
  unfolding seal_all
  length-seal_all [] = refl
  length-seal_all (block ∷ bs) = ap suc (length-seal_all bs)

  all-sealed : (bs : List (BasicBlock F)) → all sealed (seal_all bs) ≡ true
  unfolding seal_all
  all-sealed [] = refl
  all-sealed (block ∷ bs) = all-sealed bs

  get_elem?-seal_all :
      (bs : List (BasicBlock F)) (i : ℕ) (block : BasicBlock F)
      → get_elem? bs i ≡ some block
      → get_elem? (seal_all bs) i ≡ some (with_end block)
  unfolding seal_all
  get_elem?-seal_all [] i block e = cc
  get_elem?-seal_all (b ∷ bs) zero block e = ap (λ z. some (with_end z)) (some_inj e)
  get_elem?-seal_all (b ∷ bs) (suc i) block e = get_elem?-seal_all bs i block e

  seal_all-found :
      (bs : List (BasicBlock F)) (i : ℕ) (block : BasicBlock F)
      → get_elem? (seal_all bs) i ≡ some block
      → (old : BasicBlock F) × ((get_elem? bs i ≡ some old) × (with_end old ≡ block))
  unfolding seal_all
  seal_all-found [] i block e = cc
  seal_all-found (b ∷ bs) zero block e = (b, (refl, some_inj e))
  seal_all-found (b ∷ bs) (suc i) block e = seal_all-found bs i block e

  successors-or_return : (t : Option (Terminator F)) → successors (or_return t) ≡ block_successors t
  unfolding successors
  successors-or_return none = refl
  successors-or_return (some t) = refl

  arms_present-or_return :
      (t : Option (Terminator F)) → arms_present t ≡ true → arms_present (some (or_return t)) ≡ true
  unfolding arms_present
  arms_present-or_return none h = refl
  arms_present-or_return (some t) h = h

  HandlerFits-seal_all :
      (bs : List (BasicBlock F)) (h : Option ℕ) → HandlerFits bs h → HandlerFits (seal_all bs) h
  HandlerFits-seal_all bs none u = tt
  HandlerFits-seal_all bs (some h) u = record {
    block = with_end u.block;
    found = get_elem?-seal_all bs h u.block u.found;
    unhandled = u.unhandled;
  }

  with_end-BlockFits :
      (bs : List (BasicBlock F)) (i : ℕ) (old : BasicBlock F)
      → BlockFits bs i old
      → BlockFits (seal_all bs) i (with_end old)
  with_end-BlockFits bs i old f = record {
    numbered = f.numbered;
    targets = rw (successors-or_return old.terminator, length-seal_all bs) f.targets;
    arms = arms_present-or_return old.terminator f.arms;
    handled = HandlerFits-seal_all bs old.handler f.handled;
  }

  Inv-seal_all :
      (bs : List (BasicBlock F)) {loops handlers : List ℕ}
      → Inv bs loops handlers
      → Inv (seal_all bs) [] []
  Inv-seal_all bs v = record {
    blocks_fit = λ i block e.
        let (old, (found, is)) = seal_all-found bs i block e in
        subst (λ z. BlockFits (seal_all bs) i z) is
          (with_end-BlockFits bs i old (v.blocks_fit i old found));
    entry_there = omega (arith, v.entry_there, length-seal_all bs);
    exits_fit = tt;
    handlers_fit = tt;
  }

  found-entry :
      (i : ℕ) (block block' : BasicBlock F)
      → get_elem? (block ∷ []) i ≡ some block'
      → (i ≡ 0) × (block ≡ block')
  found-entry zero block block' e = (refl, some_inj e)
  found-entry (suc i) block block' e = cc

  pub new-IsValid : IsValid {F = F} new
  unfolding new arms_present
  new-IsValid = record {
    blocks_fit = λ i block e.
        let (at, is) =
          found-entry i (record { id = 0; stmts = []; terminator = none; handler = none }) block
            e in
        subst (λ z. BlockFits new.blocks i z) is
          (record { numbered = sym at; targets = tt; arms = refl; handled = tt });
    entry_there = omega arith;
    exits_fit = tt;
    handlers_fit = tt;
  }

  pub new-Open : Open (new {F = F}).blocks 0
  unfolding new
  new-Open = record {
    block = record { id = 0; stmts = []; terminator = none; handler = none };
    found = refl;
    unsealed = refl;
  }

  -- For a body in which EXIT is in a loop, CASE and TYPECASE have branches with labels, and a clause for
  -- every exception is the last, `build_cfg` returns a graph, with no panic of the builder or of `verify`,
  -- and the graph passes `verify`: blocks are numbered and sealed, targets and handlers exist, and the
  -- predecessors are consistent with the terminators.
  pub build_cfg-verified :
      (body : HirStmts F)
      → Allowed false body
      → (cfg : Cfg F) × ((build_cfg body ≡ done cfg) × (verify cfg ≡ done tt))
  unfolding build_cfg finish
  build_cfg-verified body h =
      let low = lower_stmts-Sound false body h 0 new new-IsValid tt (new-current F) new-Open in
      let (cfg, (made, passes)) =
        verify-done (seal_all low.after.blocks) (Inv-seal_all low.after.blocks low.valid)
          (all-sealed low.after.blocks) in
      (cfg, (rw (low.runs, made, passes) refl, passes))
