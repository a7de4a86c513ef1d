-- ===== src/Cfg/Build/Dispatch.antt =====
-- The dispatch of exceptions and its blocks (`lower_try` of src/cfg/build.rs).
use mx.Common.{
  ℕ, zero, suc, ◌≤◌, ◌≡◌, refl, sym, ap, ◌∙◌, Bool, true, false, none, some, List, [], ◌∷◌, arith,
  length, inl, inr,
}
use mx.Hir.{HirExceptClauses, no_except, except_clause}
use mx.Cfg.{goto, branch, successors, BasicBlock}
use mx.Cfg.Verify.{arms_present}
use mx.Cfg.Build.{Builder, new_block_no_handler}
use mx.Cfg.Build.Exprs.{exception_test}
use mx.Cfg.Build.Parts.{has_except, handler_blocks, dispatch}
use mx.Cfg.Build.Lower.{lower_stmts}
use mx.Cfg.Build.Inv.{
  Fits, AllFit, AllFit-le, Open, Grows, Grows-refl, Grows-trans, Open-Grows, Open-lt,
}
use mx.Cfg.Build.Blocks.{IsValid, Closes, new_block_no_handler-Adds}
use mx.Cfg.Build.Steps.{start_block-eq-done, seal-Closes}
use mx.Cfg.Build.Branches.{Fits-le, Open-Adds, Closes-behind}
use mx.Cfg.Build.Sound.{Sound}
use mx.Cfg.Build.Arms.{TargetsOpen, TargetsOpen-le}

module _ {F : Type 0} where
  unfoldable pub count_excepts : HirExceptClauses F → ℕ
  count_excepts no_except = 0
  count_excepts (except_clause e v body rest) = suc (count_excepts rest)

  unfoldable pub ExceptsSound : Bool → HirExceptClauses F → Type 0
  ExceptsSound l no_except = Unit
  ExceptsSound l (except_clause e v body rest) = Sound l (lower_stmts body) × ExceptsSound l rest

  -- A clause without an exception is the last.
  unfoldable pub CatchAllLast : HirExceptClauses F → Type 0
  CatchAllLast no_except = Unit
  CatchAllLast (except_clause none v body rest) = has_except rest ≡ false
  CatchAllLast (except_clause (some e) v body rest) = CatchAllLast rest

  pub record Handlers (b : Builder F) (n : ℕ) (p : Builder F × List ℕ) : Type 0 where
    pub valid : IsValid p.0
    pub grows : (c : ℕ) → Grows c b.blocks p.0.blocks
    pub current : p.0.current ≡ b.current
    pub loops : p.0.loop_exit_stack ≡ b.loop_exit_stack
    pub handlers : p.0.handler_stack ≡ b.handler_stack
    pub targets : TargetsOpen p.0.blocks (length b.blocks) n p.1

  pub handler_blocks-Handlers :
      (excepts : HirExceptClauses F) (b : Builder F)
      → IsValid b
      → Handlers b (count_excepts excepts) (handler_blocks excepts b)
  unfolding handler_blocks count_excepts
  handler_blocks-Handlers no_except b v = record {
    valid = v;
    grows = λ c. Grows-refl c b.blocks;
    current = refl;
    loops = refl;
    handlers = refl;
    targets = tt;
  }
  handler_blocks-Handlers (except_clause e v body rest) b valid =
      let (b1, h) = new_block_no_handler b in
      let a = new_block_no_handler-Adds b valid in
      let r = handler_blocks-Handlers rest b1 a.valid in
      let p = handler_blocks rest b1 in
      record {
        valid = r.valid;
        grows = λ c. Grows-trans c c (a.grows c) (r.grows c) (inl refl);
        current = r.current ∙ a.current;
        loops = r.loops ∙ a.loops;
        handlers = r.handlers ∙ a.handlers;
        targets = (
          omega (arith, a.number),
          (
            Open-Grows (r.grows (suc h)) (λ e. omega (arith, e)) a.opened,
            TargetsOpen-le p.0.blocks (length b1.blocks) (suc h) (count_excepts rest) p.1
                (omega (arith, a.number, a.longer)) r.targets,
          ),
        );
      }

  pub length-TargetsOpen :
      (bs : List (BasicBlock F)) (lo n : ℕ) (ts : List ℕ) → TargetsOpen bs lo n ts → length ts ≡ n
  length-TargetsOpen bs lo zero [] h = refl
  length-TargetsOpen bs lo zero (t ∷ ts) h = absurd h
  length-TargetsOpen bs lo (suc n) [] h = absurd h
  length-TargetsOpen bs lo (suc n) (t ∷ ts) h = ap suc (length-TargetsOpen bs (suc t) n ts h.1.1)

  pub dispatch-Closes :
      (excepts : HirExceptClauses F) (hs : List ℕ) (reraise d : ℕ) (b : Builder F)
      → has_except excepts ≡ true
      → CatchAllLast excepts
      → length hs ≡ count_excepts excepts
      → AllFit (length b.blocks) hs
      → Fits (length b.blocks) reraise
      → IsValid b
      → b.current ≡ some d
      → Open b.blocks d
      → Closes d b (dispatch excepts hs reraise b)
  unfolding dispatch CatchAllLast count_excepts successors arms_present
  dispatch-Closes no_except hs reraise d b some_clause last n fits fit v at o = cc
  dispatch-Closes (except_clause e x body rest) [] reraise d b some_clause last n fits fit v at o =
      absurd (omega (arith, n))
  dispatch-Closes (except_clause none x body no_except) (h ∷ hs) reraise d b some_clause last n fits
        fit v at o =
      let s = seal-Closes (goto h) d b v at o (fits.0, tt) refl in
      Closes-behind (Grows-refl d b.blocks) refl refl (inl refl) s (rw s.runs refl)
  dispatch-Closes (except_clause none x body (except_clause e' x' body' rest)) (h ∷ hs) reraise d b
        some_clause last n fits fit v at o =
      cc
  dispatch-Closes (except_clause (some sym) x body no_except) (h ∷ hs) reraise d b some_clause last
        n fits fit v at o =
      let s =
        seal-Closes (branch (exception_test sym) h reraise) d b v at o (fits.0, (fit, tt)) refl in
      Closes-behind (Grows-refl d b.blocks) refl refl (inl refl) s (rw s.runs refl)
  dispatch-Closes (except_clause (some sym) x body (except_clause e' x' body' rest)) (h ∷ hs)
        reraise d b some_clause last n fits fit v at o =
      let (b1, next) = new_block_no_handler b in
      let a = new_block_no_handler-Adds b v in
      let s =
        seal-Closes (branch (exception_test sym) h next) d b1 a.valid (a.current ∙ at)
          (Open-Adds d a o)
          (
            (fits.0.0, omega (arith, fits.0.1, a.longer)),
            ((a.positive, omega (arith, a.number, a.longer)), tt),
          )
          refl in
      let opened = Open-Grows s.grows (λ e. omega (arith, e, a.number, Open-lt o)) a.opened in
      let le : length b.blocks ≤ length s.after.blocks = omega (arith, a.longer, s.grows.longer) in
      let next_run =
        dispatch-Closes (except_clause e' x' body' rest) hs reraise next
          (record s.after { current = some next }) refl last (omega (arith, n))
          (AllFit-le (length b.blocks) (length s.after.blocks) hs le fits.1) (Fits-le fit le)
          s.valid refl opened in
      Closes-behind (Grows-trans d d (a.grows d) s.grows (inl refl)) (s.loops ∙ a.loops)
        (s.handlers ∙ a.handlers) (inr (omega (arith, a.number))) next_run
        (rw (s.runs, start_block-eq-done next s.after s.closed opened) refl)
