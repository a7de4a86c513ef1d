-- ===== src/Cfg/Build/Misplaced.antt =====
-- TRY with a clause for every exception that is not the last (`lower_try` of src/cfg/build.rs).
use mx.Common.{
  ℕ, suc, ◌≤◌, ◌≡◌, refl, sym, ap, ◌∙◌, Bool, true, not, none, some, List, [], ◌∷◌, arith, length,
  get_elem?, set,
}
use mx.Common.Runs.{done, panic, ◌>>=◌, ◌>>◌, assert, or_panic}
use mx.Hir.{HirStmts, HirExceptClauses, no_except, except_clause}
use mx.Cfg.{Terminator, goto, branch, successors, is_some}
use mx.Cfg.Verify.{arms_present}
use mx.Cfg.Build.{Builder, new_block_no_handler, seal}
use mx.Cfg.Build.Exprs.{exception_test}
use mx.Cfg.Build.Parts.{has_except, handler_blocks, dispatch}
use mx.Cfg.Build.Lower.{lower_stmts}
use mx.Cfg.Build.Inv.{Fits, AllFit, AllFit-le, Open, Open-Grows, Open-lt}
use mx.Cfg.Build.Blocks.{IsValid, new_block_no_handler-Adds}
use mx.Cfg.Build.Steps.{start_block-eq-done, seal-Closes}
use mx.Cfg.Build.Branches.{Open-Adds}
use mx.Cfg.Build.Sound.{Sound}
use mx.Hir.{try_stmt, stmt, ElseBody}
use mx.Symtab.{SourceLoc}
use mx.Cfg.Build.{new_block}
use mx.Cfg.Build.Parts.{lower_catch, lower_try, has_else, block_or}
use mx.Cfg.Build.Lower.{lower_stmts, lower_stmt, lower_kind, lower_handlers}
use mx.Cfg.Build.Blocks.{some_case, new_block-Adds, new_block_no_handler-Unhandled}
use mx.Cfg.Build.Inv.{Unhandled, Unhandled-Grows}
use mx.Cfg.Build.Sound.{Sound, InLoop, InLoop-eq}
use mx.Common.Runs.{Run}
use mx.Cfg.Build.Arms.{TargetsOpen-AllFit}
use mx.Common.{◌≢◌}
use mx.Cfg.Build.Conditional.{block_or-Picks, Other-positive}
use mx.Cfg.Build.Dispatch.{count_excepts, handler_blocks-Handlers, length-TargetsOpen}
use mx.Cfg.Build.Tries.{lower_protected-Closes}
use mx.Cfg.Build.Allowed.{Allowed}
use mx.Cfg.Build.Whole.{lower_stmts-Sound}

module _ {F : Type 0} where
  -- A clause for every exception has another clause behind it.
  unfoldable pub CatchAllInside : HirExceptClauses F → Type 0
  CatchAllInside no_except = ⊥
  CatchAllInside (except_clause none v body rest) = has_except rest ≡ true
  CatchAllInside (except_clause (some e) v body rest) = CatchAllInside rest

  seal-panics : (t : Terminator F) (b : Builder F) → b.current ≡ none → seal t b ≡ panic
  unfolding seal
  seal-panics t b at =
      ap
        (λ o. or_panic o >>= λ id. or_panic (get_elem? b.blocks id) >>= λ block.
          assert (not (is_some block.terminator))
          >> done (record b {
            blocks = set b.blocks id (record block { terminator = some t });
            current = none;
          }))
        at

  closed-panics :
      (excepts : HirExceptClauses F) (hs : List ℕ) (reraise : ℕ) (b : Builder F)
      → has_except excepts ≡ true
      → b.current ≡ none
      → dispatch excepts hs reraise b ≡ panic
  unfolding dispatch new_block_no_handler
  closed-panics no_except hs reraise b h at = cc
  closed-panics (except_clause e x body rest) [] reraise b h at = refl
  closed-panics (except_clause none x body rest) (t ∷ hs) reraise b h at =
      rw (seal-panics (goto t) b at) refl
  closed-panics (except_clause (some sym) x body no_except) (t ∷ hs) reraise b h at =
      rw (seal-panics (branch (exception_test sym) t reraise) b at) refl
  closed-panics (except_clause (some sym) x body (except_clause e' x' body' rest)) (t ∷ hs) reraise
        b h at =
      rw
        (seal-panics (branch (exception_test sym) t (new_block_no_handler b).1)
          (new_block_no_handler b).0 at)
        refl

  dispatch-panics :
      (excepts : HirExceptClauses F) (hs : List ℕ) (reraise d : ℕ) (b : Builder F)
      → CatchAllInside excepts
      → length hs ≡ count_excepts excepts
      → AllFit (length b.blocks) hs
      → IsValid b
      → b.current ≡ some d
      → Open b.blocks d
      → dispatch excepts hs reraise b ≡ panic
  unfolding dispatch CatchAllInside count_excepts successors arms_present
  dispatch-panics no_except hs reraise d b inside n fits v at o = absurd inside
  dispatch-panics (except_clause e x body rest) [] reraise d b inside n fits v at o =
      absurd (omega (arith, n))
  dispatch-panics (except_clause none x body rest) (h ∷ hs) reraise d b inside n fits v at o =
      let s = seal-Closes (goto h) d b v at o (fits.0, tt) refl in
      rw (s.runs, closed-panics rest hs reraise s.after inside s.closed) refl
  dispatch-panics (except_clause (some sym) x body no_except) (h ∷ hs) reraise d b inside n fits v
        at o =
      absurd inside
  dispatch-panics (except_clause (some sym) x body (except_clause e' x' body' rest)) (h ∷ hs)
        reraise d b inside n fits v at o =
      let (b1, next) = new_block_no_handler b in
      let a = new_block_no_handler-Adds b v in
      let s =
        seal-Closes (branch (exception_test sym) h next) d b1 a.valid (a.current ∙ at)
          (Open-Adds d a o)
          (
            (fits.0.0, omega (arith, fits.0.1, a.longer)),
            ((a.positive, omega (arith, a.number, a.longer)), tt),
          )
          refl in
      let opened = Open-Grows s.grows (λ e. omega (arith, e, a.number, Open-lt o)) a.opened in
      let le : length b.blocks ≤ length s.after.blocks = omega (arith, a.longer, s.grows.longer) in
      rw (s.runs, start_block-eq-done next s.after s.closed opened)
        (dispatch-panics (except_clause e' x' body' rest) hs reraise next
          (record s.after { current = some next }) inside (omega (arith, n))
          (AllFit-le (length b.blocks) (length s.after.blocks) hs le fits.1) s.valid refl opened)

  lower_catch-panics :
      (excepts : HirExceptClauses F) (finally_body : ElseBody F)
      (lower : List ℕ → Builder F → Run (Builder F)) (d : ℕ) (b : Builder F)
      → CatchAllInside excepts
      → IsValid b
      → b.current ≡ some d
      → Open b.blocks d
      → lower_catch excepts finally_body lower b ≡ panic
  unfolding lower_catch CatchAllInside
  lower_catch-panics no_except finally_body lower d b inside v at o = absurd inside
  lower_catch-panics (except_clause e x body rest) finally_body lower d b inside v at o =
      let excepts = except_clause e x body rest in
      let (b1, reraise) = new_block_no_handler b in
      let a = new_block_no_handler-Adds b v in
      let (b2, hs) = handler_blocks excepts b1 in
      let h = handler_blocks-Handlers excepts b1 a.valid in
      let lo = length b1.blocks in
      let n = count_excepts excepts in
      rw
        (dispatch-panics excepts hs reraise d b2 inside
          (length-TargetsOpen b2.blocks lo n hs h.targets)
          (TargetsOpen-AllFit b2.blocks lo n hs (omega (arith, a.longer)) h.targets) h.valid
          (h.current ∙ a.current ∙ at)
          (Open-Grows (h.grows (suc d)) (λ e. omega (arith, e)) (Open-Adds d a o)))
        refl

  lower_try-panics :
      (l : Bool) (lower catch : Builder F → Run (Builder F)) (finally_body : ElseBody F)
      (merge catch_block finally_normal c : ℕ) (b : Builder F)
      → Sound l lower
      → ((b' : Builder F)
          → IsValid b'
          → b'.current ≡ some catch_block
          → Open b'.blocks catch_block
          → catch b' ≡ panic)
      → InLoop l b.loop_exit_stack
      → IsValid b
      → b.current ≡ some c
      → Open b.blocks c
      → catch_block ≢ c
      → Open b.blocks catch_block
      → Unhandled b.blocks catch_block
      → Fits (length b.blocks) finally_normal
      → lower_try lower catch finally_body merge catch_block finally_normal b ≡ panic
  unfolding lower_try
  lower_try-panics l lower catch finally_body merge catch_block finally_normal c b sound panics loop
        v at o n oc u fit =
      let s =
        lower_protected-Closes l lower catch_block finally_normal c b sound loop v at o u fit in
      let ok = Open-Grows s.grows n oc in
      rw
        (
          s.runs,
          start_block-eq-done catch_block s.after s.closed ok,
          panics (record s.after { current = some catch_block }) s.valid refl ok,
        )
        refl

  -- A TRY statement whose body is allowed, in which a clause for every exception has another clause behind it,
  -- at whatever places: from every valid state with an open block, its lowering panics.
  pub lower_stmt-panics :
      (l : Bool) (body : HirStmts F) (excepts : HirExceptClauses F) (finally_body : ElseBody F)
      (loc : SourceLoc) (c : ℕ) (b : Builder F)
      → CatchAllInside excepts
      → Allowed l body
      → IsValid b
      → InLoop l b.loop_exit_stack
      → b.current ≡ some c
      → Open b.blocks c
      → lower_stmt (stmt (try_stmt body excepts finally_body) loc) b ≡ panic
  unfolding lower_stmt lower_kind
  lower_stmt-panics l body excepts finally_body loc c b inside allowed v loop at o =
      let (b1, merge) = new_block b in
      let a1 = new_block-Adds b v in
      let (b2, catch_block) = new_block_no_handler b1 in
      let a2 = new_block_no_handler-Adds b1 a1.valid in
      let p =
        block_or-Picks (has_else finally_body) merge b2 a2.valid (Open-Adds merge a2 a1.opened) in
      let (b3, finally_normal) = block_or (has_else finally_body) merge b2 in
      let kept : (i : ℕ) → Open b2.blocks i → Open b3.blocks i =
        λ i oi. Open-Grows (p.grows (suc i)) (λ e. omega (arith, e)) oi in
      some_case b.current (done b) (lower_kind (try_stmt body excepts finally_body) loc b) at
      ∙ lower_try-panics l (lower_stmts body)
          (lower_catch excepts finally_body (lower_handlers excepts finally_normal)) finally_body
          merge catch_block finally_normal c b3 (lower_stmts-Sound l body allowed)
          (λ b' v' at' o'.
            lower_catch-panics excepts finally_body (lower_handlers excepts finally_normal)
              catch_block b' inside v' at' o')
          (InLoop-eq l (p.loops ∙ a2.loops ∙ a1.loops) loop) p.valid
          (p.current ∙ a2.current ∙ a1.current ∙ at) (kept c (Open-Adds c a2 (Open-Adds c a1 o)))
          (λ e. omega (arith, e, a2.number, a1.longer, Open-lt o)) (kept catch_block a2.opened)
          (Unhandled-Grows (p.grows 0) (new_block_no_handler-Unhandled b1))
          (Other-positive p.other a1.positive (omega (arith, a2.longer)), Open-lt p.opened)
