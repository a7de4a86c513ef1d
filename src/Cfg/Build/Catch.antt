-- ===== src/Cfg/Build/Catch.antt =====
-- What is behind the catch block of TRY (src/cfg/build.rs).
use mx.Common.{
  ℕ, suc, ◌≤◌, ◌<◌, ◌≡◌, refl, ◌∙◌, Bool, none, some, List, [], ◌∷◌, arith, length, inl, inr,
}
use mx.Hir.{ElseBody, no_else, else_body, HirExceptClauses, no_except, except_clause}
use mx.Cfg.{raise, successors}
use mx.Cfg.Verify.{arms_present}
use mx.Cfg.Build.{Builder, new_block_no_handler}
use mx.Cfg.Build.Parts.{handler_blocks, reraise_after, lower_catch}
use mx.Cfg.Build.Lower.{lower_stmts, lower_handlers}
use mx.Cfg.Build.Inv.{Fits, Open, Grows-trans, Open-Grows, Open-lt}
use mx.Cfg.Build.Blocks.{IsValid, Closes, new_block_no_handler-Adds}
use mx.Cfg.Build.Steps.{push_stmts-Keeps, start_block-eq-done, seal-Closes}
use mx.Cfg.Build.Branches.{Fits-le, Open-Adds, Closes-behind}
use mx.Cfg.Build.Sound.{InLoop, InLoop-eq, lower_part-Closes, Since, Since-Closes}
use mx.Cfg.Build.Choices.{Part}
use mx.Cfg.Build.Arms.{TargetsOpen, TargetsOpen-Grows, TargetsOpen-AllFit}
use mx.Cfg.Build.Dispatch.{
  count_excepts, ExceptsSound, CatchAllLast, handler_blocks-Handlers, length-TargetsOpen,
  dispatch-Closes,
}

module _ {F : Type 0} where
  reraise_after-Closes :
      (finally_body : ElseBody F) (d : ℕ) (b : Builder F)
      → IsValid b
      → b.current ≡ some d
      → Open b.blocks d
      → Closes d b (reraise_after finally_body b)
  unfolding reraise_after successors arms_present
  reraise_after-Closes no_else d b v at o = seal-Closes (raise none) d b v at o tt refl
  reraise_after-Closes (else_body body) d b v at o =
      let k = push_stmts-Keeps body d b v at o in
      Closes-behind k.grows k.loops k.handlers (inl refl)
        (seal-Closes (raise none) d k.after k.valid k.current k.opened tt refl) (rw k.runs refl)

  lower_handlers-Part :
      (l : Bool) (excepts : HirExceptClauses F) (finally_normal reraise c lo : ℕ) (hs : List ℕ)
      (b0 b : Builder F)
      → ExceptsSound l excepts
      → InLoop l b0.loop_exit_stack
      → Fits (length b0.blocks) finally_normal
      → reraise < lo
      → length b0.blocks ≤ lo
      → Since c b0 b
      → Open b.blocks reraise
      → TargetsOpen b.blocks lo (count_excepts excepts) hs
      → Part c b0 reraise (lower_handlers excepts finally_normal hs b)
  unfolding lower_handlers count_excepts ExceptsSound
  lower_handlers-Part l no_except finally_normal reraise c lo hs b0 b sound loop fit lr lb st o
        targets =
      record { after = b; runs = refl; since = st; merge_open = o }
  lower_handlers-Part l (except_clause e x body rest) finally_normal reraise c lo [] b0 b sound loop
        fit lr lb st o targets =
      absurd targets
  lower_handlers-Part l (except_clause e x body rest) finally_normal reraise c lo (h ∷ hs) b0 b
        sound loop fit lr lb st o targets =
      let le = targets.0 in
      let part =
        lower_part-Closes l (lower_stmts body) h finally_normal b sound.0 st.valid
          (InLoop-eq l st.loops loop) st.closed targets.1.0 (Fits-le fit st.grows.longer) in
      let next =
        lower_handlers-Part l rest finally_normal reraise c (suc h) hs b0 part.after sound.1 loop
          fit (omega (arith, lr, le)) (omega (arith, lb, le))
          (Since-Closes st (inr (omega (arith, lb, le))) part)
          (Open-Grows part.grows (λ e. omega (arith, e, lr, le)) o)
          (TargetsOpen-Grows (suc h) (count_excepts rest) hs part.grows (omega arith)
            targets.1.1) in
      record {
        after = next.after;
        runs = rw part.runs next.runs;
        since = next.since;
        merge_open = next.merge_open;
      }

  pub lower_catch-Closes :
      (l : Bool) (excepts : HirExceptClauses F) (finally_body : ElseBody F) (finally_normal d : ℕ)
      (b : Builder F)
      → ExceptsSound l excepts
      → CatchAllLast excepts
      → InLoop l b.loop_exit_stack
      → Fits (length b.blocks) finally_normal
      → IsValid b
      → b.current ≡ some d
      → Open b.blocks d
      → Closes d b (lower_catch excepts finally_body (lower_handlers excepts finally_normal) b)
  unfolding lower_catch
  lower_catch-Closes l no_except finally_body finally_normal d b sound last loop fit v at o =
      reraise_after-Closes finally_body d b v at o
  lower_catch-Closes l (except_clause e x body rest) finally_body finally_normal d b sound last loop
        fit v at o =
      let excepts = except_clause e x body rest in
      let (b1, reraise) = new_block_no_handler b in
      let a = new_block_no_handler-Adds b v in
      let (b2, hs) = handler_blocks excepts b1 in
      let h = handler_blocks-Handlers excepts b1 a.valid in
      let lo = length b1.blocks in
      let n = count_excepts excepts in
      let le : lo ≤ length b2.blocks = (h.grows 0).longer in
      let dis =
        dispatch-Closes excepts hs reraise d b2 refl last
          (length-TargetsOpen b2.blocks lo n hs h.targets)
          (TargetsOpen-AllFit b2.blocks lo n hs (omega (arith, a.longer)) h.targets)
          (a.positive, omega (arith, le, a.number, a.longer)) h.valid (h.current ∙ a.current ∙ at)
          (Open-Grows (h.grows (suc d)) (λ e. omega (arith, e)) (Open-Adds d a o)) in
      let since : Since d b dis.after = record {
        valid = dis.valid;
        grows =
            Grows-trans d d (a.grows d) (Grows-trans d d (h.grows d) dis.grows (inl refl))
              (inl refl);
        closed = dis.closed;
        loops = dis.loops ∙ h.loops ∙ a.loops;
        handlers = dis.handlers ∙ h.handlers ∙ a.handlers;
      } in
      let part =
        lower_handlers-Part l excepts finally_normal reraise d lo hs b dis.after sound loop fit
          (omega (arith, a.number, a.longer)) (omega (arith, a.longer)) since
          (Open-Grows dis.grows (λ e. omega (arith, e, a.number, Open-lt o))
            (Open-Grows (h.grows (suc reraise)) (λ e. omega (arith, e)) a.opened))
          (TargetsOpen-Grows lo n hs dis.grows (omega (arith, a.longer, Open-lt o)) h.targets) in
      let last_run =
        reraise_after-Closes finally_body reraise (record part.after { current = some reraise })
          part.since.valid refl part.merge_open in
      Closes-behind part.since.grows part.since.loops part.since.handlers
        (inr (omega (arith, a.number))) last_run
        (rw
          (
            dis.runs,
            part.runs,
            start_block-eq-done reraise part.after part.since.closed part.merge_open,
          )
          refl)
