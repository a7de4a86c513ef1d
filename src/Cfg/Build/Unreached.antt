-- ===== src/Cfg/Build/Unreached.antt =====
-- Statements behind RETURN, RAISE and EXIT (`lower_stmts` of src/cfg/build.rs).
use mx.Common.{
  ℕ, ◌≡◌, refl, sym, ap, ◌∙◌, Bool, true, false, not, Option, none, some, get_elem?, set,
}
use mx.Common.Runs.{Run, done, panic, out_of_fuel, ◌>>=◌, ◌>>◌, assert, or_panic, done_inj}
use mx.Symtab.{SourceLoc}
use mx.Hir.{stmt, HirStmtKind, exit, return_stmt, raise_stmt, HirStmts, end, seq}
use mx.Cfg.{Terminator, goto, return, raise, BasicBlock, is_some}
use mx.Cfg.Build.{Builder, top, seal}
use mx.Cfg.Build.Lower.{lower_stmts, lower_stmt, lower_kind}
use mx.Cfg.Build.Whole.{lower_stmts-idle}

module _ {F : Type 0} where
  -- RETURN, RAISE or EXIT.
  unfoldable pub leaves : HirStmtKind F → Bool
  leaves (return_stmt value) = true
  leaves (raise_stmt value) = true
  leaves exit = true
  leaves _ = false

  -- One sequence of statements before another.
  unfoldable pub append : HirStmts F → HirStmts F → HirStmts F
  append end ts = ts
  append (seq s ss) ts = seq s (append ss ts)

  -- No block is open where the run returns.
  abbrev LeavesClosed : Run (Builder F) → Type 0
  LeavesClosed r = (after : Builder F) → r ≡ done after → after.current ≡ none

  seal-LeavesClosed : (t : Terminator F) (b : Builder F) → LeavesClosed (seal t b)
  unfolding seal
  seal-LeavesClosed t b after h = at_current b.current h
    where
      sealed : (id : ℕ) (block : BasicBlock F) → Builder F
      sealed id block = record b {
        blocks = set b.blocks id (record block { terminator = some t });
        current = none;
      }

      asserted :
          (id : ℕ) (block : BasicBlock F) (free : Bool)
          → (assert free >> done (sealed id block)) ≡ done after
          → after.current ≡ none
      asserted id block true h' = ap (λ (z : Builder F). z.current) (sym (done_inj h'))
      asserted id block false h' = cc

      at_block :
          (id : ℕ) (o : Option (BasicBlock F))
          → (or_panic o >>= λ block.
              assert (not (is_some block.terminator)) >> done (sealed id block))
            ≡ done after
          → after.current ≡ none
      at_block id none h' = cc
      at_block id (some block) h' = asserted id block (not (is_some block.terminator)) h'

      at_current :
          (o : Option ℕ)
          → (or_panic o >>= λ id. or_panic (get_elem? b.blocks id) >>= λ block.
              assert (not (is_some block.terminator)) >> done (sealed id block))
            ≡ done after
          → after.current ≡ none
      at_current none h' = cc
      at_current (some id) h' = at_block id (get_elem? b.blocks id) h'

  exit-LeavesClosed :
      (o : Option ℕ) (b : Builder F) → LeavesClosed (or_panic o >>= λ target. seal (goto target) b)
  exit-LeavesClosed none b after h = cc
  exit-LeavesClosed (some target) b after h = seal-LeavesClosed (goto target) b after h

  lower_kind-LeavesClosed :
      (kind : HirStmtKind F) (loc : SourceLoc) (b : Builder F)
      → leaves kind ≡ true
      → LeavesClosed (lower_kind kind loc b)
  unfolding lower_kind leaves
  lower_kind-LeavesClosed (return_stmt value) loc b h = seal-LeavesClosed (return value) b
  lower_kind-LeavesClosed (raise_stmt value) loc b h = seal-LeavesClosed (raise value) b
  lower_kind-LeavesClosed exit loc b h = exit-LeavesClosed (top b.loop_exit_stack) b
  lower_kind-LeavesClosed kind loc b h = cc

  lower_stmt-LeavesClosed :
      (kind : HirStmtKind F) (loc : SourceLoc) (b : Builder F)
      → leaves kind ≡ true
      → LeavesClosed (lower_stmt (stmt kind loc) b)
  unfolding lower_stmt
  lower_stmt-LeavesClosed kind loc b h after e = at_current b.current refl e
    where
      at_current :
          (o : Option ℕ)
          → b.current ≡ o
          → (elim o [ none ↦ done b | some c ↦ lower_kind kind loc b ]) ≡ done after
          → after.current ≡ none
      at_current none at e' = ap (λ (z : Builder F). z.current) (sym (done_inj e')) ∙ at
      at_current (some c) at e' = lower_kind-LeavesClosed kind loc b h after e'

  LeavesClosed-idle :
      (ss : HirStmts F) (r : Run (Builder F)) → LeavesClosed r → (r >>= lower_stmts ss) ≡ r
  LeavesClosed-idle ss (done b) h = lower_stmts-idle ss b (h b refl)
  LeavesClosed-idle ss panic h = refl
  LeavesClosed-idle ss out_of_fuel h = refl

  bind_ext :
      (r : Run (Builder F)) (f g : Builder F → Run (Builder F))
      → ((b : Builder F) → f b ≡ g b)
      → (r >>= f) ≡ (r >>= g)
  bind_ext (done b) f g h = h b
  bind_ext panic f g h = refl
  bind_ext out_of_fuel f g h = refl

  -- What stands behind a RETURN, RAISE or EXIT in a sequence of statements leaves no trace: from every state,
  -- whatever is before it, the lowering has the same outcome, a panic included, as without the statements
  -- behind it.
  pub lower_stmts-unreached :
      (before behind : HirStmts F) (kind : HirStmtKind F) (loc : SourceLoc) (b : Builder F)
      → leaves kind ≡ true
      → lower_stmts (append before (seq (stmt kind loc) behind)) b
        ≡ lower_stmts (append before (seq (stmt kind loc) end)) b
  unfolding lower_stmts append
  lower_stmts-unreached end behind kind loc b h =
      let r = lower_stmt (stmt kind loc) b in
      let closed = lower_stmt-LeavesClosed kind loc b h in
      LeavesClosed-idle behind r closed ∙ sym (LeavesClosed-idle end r closed)
  lower_stmts-unreached (seq s ss) behind kind loc b h =
      bind_ext (lower_stmt s b) (lower_stmts (append ss (seq (stmt kind loc) behind)))
        (lower_stmts (append ss (seq (stmt kind loc) end)))
        (λ b'. lower_stmts-unreached ss behind kind loc b' h)
