-- ===== src/Cfg/Build/Steps.antt =====
-- What the operations of `CfgBuilder` do to its graph (src/cfg/build.rs).
use mx.Common.{
  ℕ, ◌≡◌, refl, ◌∙◌, true, none, some, [], ◌∷◌, ◌++◌, length, set, get_elem?-set_self, inl,
}
use mx.Common.Runs.{Run, done}
use mx.Hir.{HirStmt, HirStmts, end, seq}
use mx.Cfg.{Terminator, goto, BasicBlock, successors}
use mx.Cfg.Verify.{arms_present}
use mx.Cfg.Build.{Builder, start_block, seal, push_stmt, push_stmts, goto_if_open}
use mx.Cfg.Build.Inv.{Fits, AllFit, Open, Grows, Grows-refl, Grows-trans, Open-lt}
use mx.Cfg.Build.Blocks.{some_case, IsValid, Closes, Now, closed, still, Lowers, Grows-set, Inv-set}

module _ {F : Type 0} where
  pub start_block-eq-done :
      (x : ℕ) (b : Builder F)
      → b.current ≡ none
      → Open b.blocks x
      → start_block x b ≡ done (record b { current = some x })
  unfolding start_block
  start_block-eq-done x b none_open o = rw (none_open, o.found, o.unsealed) refl

  pub seal-Closes :
      (t : Terminator F) (c : ℕ) (b : Builder F)
      → IsValid b
      → b.current ≡ some c
      → Open b.blocks c
      → AllFit (length b.blocks) (successors t)
      → arms_present (some t) ≡ true
      → Closes c b (seal t b)
  unfolding seal
  seal-Closes t c b v at o fit arms = record {
    after = record b {
      blocks = set b.blocks c (record o.block { terminator = some t });
      current = none;
    };
    runs = rw (at, o.found, o.unsealed) refl;
    valid =
        Inv-set b.blocks c o.block (record o.block { terminator = some t }) o.found refl v refl fit
          arms;
    grows = Grows-set b.blocks c o.block (record o.block { terminator = some t }) o.found refl;
    closed = refl;
    loops = refl;
    handlers = refl;
  }

  -- A call that leaves the current block `c` open.
  pub record Keeps (c : ℕ) (b : Builder F) (r : Run (Builder F)) : Type 0 where
    pub after : Builder F
    pub runs : r ≡ done after
    pub valid : IsValid after
    pub grows : Grows c b.blocks after.blocks
    pub current : after.current ≡ some c
    pub opened : Open after.blocks c
    pub loops : after.loop_exit_stack ≡ b.loop_exit_stack
    pub handlers : after.handler_stack ≡ b.handler_stack

  pub Keeps-Lowers : {c : ℕ} {b : Builder F} {r : Run (Builder F)} → Keeps c b r → Lowers c b r
  Keeps-Lowers {c} k = record {
    after = k.after;
    runs = k.runs;
    valid = k.valid;
    grows = k.grows;
    now = still c k.current k.opened (inl refl);
    loops = k.loops;
    handlers = k.handlers;
  }

  pub push_stmt-Keeps :
      (s : HirStmt F) (c : ℕ) (b : Builder F)
      → IsValid b
      → b.current ≡ some c
      → Open b.blocks c
      → Keeps c b (push_stmt s b)
  unfolding push_stmt
  push_stmt-Keeps s c b v at o =
      let block' : BasicBlock F = record o.block { stmts = o.block.stmts ++ s ∷ [] } in
      let fits = v.blocks_fit c o.block o.found in
      record {
        after = record b { blocks = set b.blocks c block' };
        runs = rw (at, o.found) refl;
        valid = Inv-set b.blocks c o.block block' o.found refl v refl fits.targets fits.arms;
        grows = Grows-set b.blocks c o.block block' o.found refl;
        current = at;
        opened = record {
          block = block';
          found = get_elem?-set_self b.blocks c block' (Open-lt o);
          unsealed = o.unsealed;
        };
        loops = refl;
        handlers = refl;
      }

  pub push_stmts-Keeps :
      (ss : HirStmts F) (c : ℕ) (b : Builder F)
      → IsValid b
      → b.current ≡ some c
      → Open b.blocks c
      → Keeps c b (push_stmts ss b)
  unfolding push_stmts
  push_stmts-Keeps end c b v at o = record {
    after = b;
    runs = refl;
    valid = v;
    grows = Grows-refl c b.blocks;
    current = at;
    opened = o;
    loops = refl;
    handlers = refl;
  }
  push_stmts-Keeps (seq s ss) c b v at o =
      let first = push_stmt-Keeps s c b v at o in
      let rest = push_stmts-Keeps ss c first.after first.valid first.current first.opened in
      record {
        after = rest.after;
        runs = rw first.runs rest.runs;
        valid = rest.valid;
        grows = Grows-trans c c first.grows rest.grows (inl refl);
        current = rest.current;
        opened = rest.opened;
        loops = rest.loops ∙ first.loops;
        handlers = rest.handlers ∙ first.handlers;
      }

  -- The current block may have been closed.
  pub goto_if_open-Closes :
      (target c : ℕ) (b after : Builder F)
      → IsValid after
      → Grows c b.blocks after.blocks
      → Now c b after
      → after.loop_exit_stack ≡ b.loop_exit_stack
      → after.handler_stack ≡ b.handler_stack
      → Fits (length after.blocks) target
      → Closes c b (goto_if_open target after)
  unfolding goto_if_open successors arms_present
  goto_if_open-Closes target c b after v g (closed at) ls hs fit = record {
    after = after;
    runs = rw at refl;
    valid = v;
    grows = g;
    closed = at;
    loops = ls;
    handlers = hs;
  }
  goto_if_open-Closes target c b after v g (still c' at o new) ls hs fit =
      let s = seal-Closes (goto target) c' after v at o (fit, tt) refl in
      record {
        after = s.after;
        runs = some_case after.current (done after) (seal (goto target) after) at ∙ s.runs;
        valid = s.valid;
        grows = Grows-trans c c' g s.grows new;
        closed = s.closed;
        loops = s.loops ∙ ls;
        handlers = s.handlers ∙ hs;
      }
