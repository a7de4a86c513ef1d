-- ===== src/Cfg/Build/Tries.antt =====
-- TRY lowers soundly (src/cfg/build.rs).
use mx.Common.{
  ℕ, suc, ◌≤◌, ◌<◌, ◌≡◌, ◌≢◌, refl, ap, ◌∙◌, Bool, some, List, [], ◌∷◌, arith, length, inl, inr,
}
use mx.Common.Runs.{Run}
use mx.Symtab.{SourceLoc}
use mx.Hir.{HirStmts, ElseBody, no_else, else_body, HirExceptClauses, try_stmt}
use mx.Cfg.{BasicBlock}
use mx.Cfg.Build.{
  Builder, new_block, new_block_no_handler, push_stmts, push_handler, pop_handler, popped,
}
use mx.Cfg.Build.Parts.{has_else, block_or, lower_finally, lower_catch, lower_protected, lower_try}
use mx.Cfg.Build.Lower.{lower_stmts, lower_kind, lower_handlers}
use mx.Cfg.Build.Inv.{
  Fits, Open, Unhandled, Unhandled-Grows, AllUnhandled, Grows, Grows-refl, Grows-trans, Open-Grows,
  Open-lt,
}
use mx.Cfg.Build.Blocks.{
  IsValid, Now, closed, still, Closes, Lowers, new_block-Adds, new_block_no_handler-Adds,
  new_block_no_handler-Unhandled,
}
use mx.Cfg.Build.Steps.{Keeps-Lowers, push_stmts-Keeps, start_block-eq-done, goto_if_open-Closes}
use mx.Cfg.Build.Branches.{Fits-le, Open-Adds}
use mx.Cfg.Build.Sound.{Sound, InLoop, InLoop-eq, Since}
use mx.Cfg.Build.Choices.{Part, lower_part-Part, Part-Lowers}
use mx.Cfg.Build.Conditional.{Other, block_or-Picks, Other-ne, Other-positive}
use mx.Cfg.Build.Dispatch.{ExceptsSound, CatchAllLast}
use mx.Cfg.Build.Catch.{lower_catch-Closes}

module _ {F : Type 0} where
  push_stmts-Sound : (l : Bool) (ss : HirStmts F) → Sound l (push_stmts ss)
  push_stmts-Sound l ss c b v loop at o = Keeps-Lowers (push_stmts-Keeps ss c b v at o)

  lower_finally-Part :
      (l : Bool) (finally_body : ElseBody F) (x merge c base : ℕ) (b0 b : Builder F)
      → InLoop l b0.loop_exit_stack
      → Since c b0 b
      → 0 < merge
      → length b0.blocks ≤ base
      → Open b.blocks merge
      → Other (has_else finally_body) base merge x b
      → Part c b0 merge (lower_finally finally_body x merge b)
  unfolding lower_finally
  lower_finally-Part l no_else x merge c base b0 b loop st pos le om other = record {
    after = b;
    runs = refl;
    since = st;
    merge_open = om;
  }
  lower_finally-Part l (else_body body) x merge c base b0 b loop st pos le om other =
      lower_part-Part l (push_stmts body) x merge c b0 b (push_stmts-Sound l body) loop st pos om
        (other.opened refl) (other.apart refl) (omega (arith, le, other.new refl))

  push_handler-IsValid :
      (h : ℕ) (b : Builder F) → IsValid b → Unhandled b.blocks h → IsValid (push_handler h b)
  push_handler-IsValid h b v u = record {
    blocks_fit = v.blocks_fit;
    entry_there = v.entry_there;
    exits_fit = v.exits_fit;
    handlers_fit = (u, v.handlers_fit);
  }

  AllUnhandled-popped :
      (bs : List (BasicBlock F)) (hs : List ℕ) → AllUnhandled bs hs → AllUnhandled bs (popped hs)
  AllUnhandled-popped bs [] u = u
  AllUnhandled-popped bs (h ∷ hs) u = u.1

  pop_handler-IsValid : (b : Builder F) → IsValid b → IsValid (pop_handler b)
  pop_handler-IsValid b v = record {
    blocks_fit = v.blocks_fit;
    entry_there = v.entry_there;
    exits_fit = v.exits_fit;
    handlers_fit = AllUnhandled-popped b.blocks b.handler_stack v.handlers_fit;
  }

  Now-pop :
      {c : ℕ} {b after : Builder F} → Now c b after → Now c (pop_handler b) (pop_handler after)
  Now-pop (closed at) = closed at
  Now-pop (still d at o new) = still d at o new

  pub lower_protected-Closes :
      (l : Bool) (lower : Builder F → Run (Builder F)) (catch_block finally_normal c : ℕ)
      (b : Builder F)
      → Sound l lower
      → InLoop l b.loop_exit_stack
      → IsValid b
      → b.current ≡ some c
      → Open b.blocks c
      → Unhandled b.blocks catch_block
      → Fits (length b.blocks) finally_normal
      → Closes c b (lower_protected lower catch_block finally_normal b)
  unfolding lower_protected
  lower_protected-Closes l lower catch_block finally_normal c b sound loop v at o u fit =
      let b' = push_handler catch_block b in
      let (b1, try_body) = new_block b' in
      let a = new_block-Adds b' (push_handler-IsValid catch_block b v u) in
      let s =
        goto_if_open-Closes try_body c b1 b1 a.valid (Grows-refl c b1.blocks)
          (still c (a.current ∙ at) (Open-Adds c a o) (inl refl)) refl refl
          (a.positive, omega (arith, a.number, a.longer)) in
      let ot = Open-Grows s.grows (λ e. omega (arith, e, a.number, Open-lt o)) a.opened in
      let started : Builder F = record s.after { current = some try_body } in
      let low = sound try_body started s.valid (InLoop-eq l (s.loops ∙ a.loops) loop) refl ot in
      let end_run =
        goto_if_open-Closes finally_normal try_body (pop_handler started) (pop_handler low.after)
          (pop_handler-IsValid low.after low.valid) low.grows (Now-pop low.now) low.loops
          (ap popped low.handlers)
          (Fits-le fit (omega (arith, a.longer, s.grows.longer, low.grows.longer))) in
      record {
        after = end_run.after;
        runs = rw (s.runs, start_block-eq-done try_body s.after s.closed ot, low.runs) end_run.runs;
        valid = end_run.valid;
        grows =
            Grows-trans c try_body (Grows-trans c c (a.grows c) s.grows (inl refl)) end_run.grows
              (inr (omega (arith, a.number)));
        closed = end_run.closed;
        loops = end_run.loops ∙ s.loops ∙ a.loops;
        handlers = end_run.handlers ∙ ap popped (s.handlers ∙ a.handlers);
      }

  -- TRY behind its first blocks, in a statement that began in `b0`.
  lower_try-Lowers :
      (l : Bool) (lower catch : Builder F → Run (Builder F)) (finally_body : ElseBody F)
      (merge catch_block finally_normal c : ℕ) (b0 b : Builder F)
      → Sound l lower
      → ((b' : Builder F)
          → IsValid b'
          → InLoop l b'.loop_exit_stack
          → Fits (length b'.blocks) finally_normal
          → b'.current ≡ some catch_block
          → Open b'.blocks catch_block
          → Closes catch_block b' (catch b'))
      → InLoop l b0.loop_exit_stack
      → IsValid b
      → Grows c b0.blocks b.blocks
      → b.loop_exit_stack ≡ b0.loop_exit_stack
      → b.handler_stack ≡ b0.handler_stack
      → b.current ≡ some c
      → Open b.blocks c
      → c < length b0.blocks
      → 0 < merge
      → length b0.blocks ≤ merge
      → merge < catch_block
      → Open b.blocks merge
      → Open b.blocks catch_block
      → Unhandled b.blocks catch_block
      → 0 < finally_normal
      → Open b.blocks finally_normal
      → Other (has_else finally_body) (suc catch_block) merge finally_normal b
      → Lowers c b0 (lower_try lower catch finally_body merge catch_block finally_normal b)
  unfolding lower_try
  lower_try-Lowers l lower catch finally_body merge catch_block finally_normal c b0 b sound catches
        loop v g ls hs at o lc pos le lt om oc u pf of other =
      let end_run =
        lower_protected-Closes l lower catch_block finally_normal c b sound (InLoop-eq l ls loop) v
          at o u (pf, Open-lt of) in
      let kept : (i : ℕ) → i ≢ c → Open b.blocks i → Open end_run.after.blocks i =
        λ i n oi. Open-Grows end_run.grows n oi in
      let ok = kept catch_block (λ e. omega (arith, e, lc, le, lt)) oc in
      let catch_run =
        catches (record end_run.after { current = some catch_block }) end_run.valid
          (InLoop-eq l (end_run.loops ∙ ls) loop)
          (pf, omega (arith, Open-lt of, end_run.grows.longer)) refl ok in
      let since : Since c b0 catch_run.after = record {
        valid = catch_run.valid;
        grows =
            Grows-trans c catch_block (Grows-trans c c g end_run.grows (inl refl)) catch_run.grows
              (inr (omega (arith, le, lt)));
        closed = catch_run.closed;
        loops = catch_run.loops ∙ end_run.loops ∙ ls;
        handlers = catch_run.handlers ∙ end_run.handlers ∙ hs;
      } in
      let om' =
        Open-Grows catch_run.grows (λ e. omega (arith, e, lt))
          (kept merge (λ e. omega (arith, e, lc, le)) om) in
      let other' : Other (has_else finally_body) (suc catch_block) merge finally_normal
          catch_run.after =
        record {
          opened = λ h.
              Open-Grows catch_run.grows (Other-ne other (omega arith) h)
                (kept finally_normal (Other-ne other (omega (arith, lc, le, lt)) h) of);
          apart = other.apart;
          new = other.new;
          same = other.same;
        } in
      let part =
        lower_finally-Part l finally_body finally_normal merge c (suc catch_block) b0
          catch_run.after loop since pos (omega (arith, le, lt)) om' other' in
      Part-Lowers part le (
        rw
          (
            end_run.runs,
            start_block-eq-done catch_block end_run.after end_run.closed ok,
            catch_run.runs,
            part.runs,
          )
          refl)

  pub try-Sound :
      (l : Bool) (body : HirStmts F) (excepts : HirExceptClauses F) (finally_body : ElseBody F)
      (loc : SourceLoc)
      → CatchAllLast excepts
      → Sound l (lower_stmts body)
      → ExceptsSound l excepts
      → Sound l (lower_kind (try_stmt body excepts finally_body) loc)
  unfolding lower_kind
  try-Sound l body excepts finally_body loc last sound excepts_sound c b v loop at o =
      let (b1, merge) = new_block b in
      let a1 = new_block-Adds b v in
      let (b2, catch_block) = new_block_no_handler b1 in
      let a2 = new_block_no_handler-Adds b1 a1.valid in
      let om = Open-Adds merge a2 a1.opened in
      let p = block_or-Picks (has_else finally_body) merge b2 a2.valid om in
      let (b3, finally_normal) = block_or (has_else finally_body) merge b2 in
      let kept : (i : ℕ) → Open b2.blocks i → Open b3.blocks i =
        λ i oi. Open-Grows (p.grows (suc i)) (λ e. omega (arith, e)) oi in
      lower_try-Lowers l (lower_stmts body)
        (lower_catch excepts finally_body (lower_handlers excepts finally_normal)) finally_body
        merge catch_block finally_normal c b b3 sound
        (λ b' v' loop' fit at' o'.
          lower_catch-Closes l excepts finally_body finally_normal catch_block b' excepts_sound last
            loop' fit v' at' o')
        loop p.valid
        (Grows-trans c c (a1.grows c) (Grows-trans c c (a2.grows c) (p.grows c) (inl refl))
          (inl refl))
        (p.loops ∙ a2.loops ∙ a1.loops) (p.handlers ∙ a2.handlers ∙ a1.handlers)
        (p.current ∙ a2.current ∙ a1.current ∙ at) (kept c (Open-Adds c a2 (Open-Adds c a1 o)))
        (Open-lt o) a1.positive (omega (arith, a1.number))
        (omega (arith, a1.number, a1.longer, a2.number)) (kept merge om)
        (kept catch_block a2.opened)
        (Unhandled-Grows (p.grows 0) (new_block_no_handler-Unhandled b1))
        (Other-positive p.other a1.positive (omega (arith, a2.longer))) p.opened
        (record {
          opened = p.other.opened;
          apart = p.other.apart;
          new = λ h. omega (arith, p.other.new h, a2.number, a2.longer);
          same = p.other.same;
        })
