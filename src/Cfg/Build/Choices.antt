-- ===== src/Cfg/Build/Choices.antt =====
-- IF lowers soundly (src/cfg/build.rs).
use mx.Common.{ℕ, ◌≤◌, ◌<◌, ◌≡◌, ◌≢◌, refl, sym, ◌∙◌, Bool, ◌||◌, some, arith, length, inl, inr}
use mx.Common.Runs.{Run, done}
use mx.Symtab.{SourceLoc}
use mx.Hir.{HirExpr, HirStmts, Elsifs, no_elsif, elsif, ElseBody, no_else, else_body, if_stmt}
use mx.Cfg.Build.{Builder, new_block, start_if_reached}
use mx.Cfg.Build.Parts.{has_elsif, has_else, lower_part}
use mx.Cfg.Build.Lower.{lower_stmts, lower_kind, lower_elsifs, lower_else}
use mx.Cfg.Build.Inv.{Open, Open-Grows, Open-lt}
use mx.Cfg.Build.Blocks.{Lowers, new_block-Adds}
use mx.Cfg.Build.Steps.{start_block-eq-done}
use mx.Cfg.Build.Branches.{Open-Adds}
use mx.Cfg.Build.Sound.{
  Sound, InLoop, InLoop-eq, Since, Since-Closes, lower_part-Closes, start_if_reached-Lowers,
}
use mx.Cfg.Build.Conditional.{Other, Arm, lower_arm-Arm}

module _ {F : Type 0} where
  unfoldable pub ElsifsSound : Bool → Elsifs F → Type 0
  ElsifsSound l no_elsif = Unit
  ElsifsSound l (elsif cond body rest) = Sound l (lower_stmts body) × ElsifsSound l rest

  unfoldable pub ElseSound : Bool → ElseBody F → Type 0
  ElseSound l no_else = Unit
  ElseSound l (else_body body) = Sound l (lower_stmts body)

  pub lower_elsifs-Arm :
      (l : Bool) (elsifs : Elsifs F) (last : Bool) (merge x c : ℕ) (b0 b : Builder F)
      → ElsifsSound l elsifs
      → InLoop l b0.loop_exit_stack
      → c < length b0.blocks
      → Since c b0 b
      → 0 < merge
      → Open b.blocks merge
      → Other (has_elsif elsifs || last) (length b0.blocks) merge x b
      → Arm c b0 last merge (lower_elsifs elsifs last merge x b)
  unfolding lower_elsifs ElsifsSound
  lower_elsifs-Arm l no_elsif last merge x c b0 b sound loop lc st pos om other = record {
    after = b;
    otherwise = x;
    runs = refl;
    since = st;
    merge_open = om;
    other = other;
  }
  lower_elsifs-Arm l (elsif cond body rest) last merge x c b0 b sound loop lc st pos om other =
      let started : Builder F = record b { current = some x } in
      let arm =
        lower_arm-Arm l (lower_stmts body) cond (has_elsif rest || last) merge c x b0 started
          sound.0 (InLoop-eq l st.loops loop) st.valid st.grows st.loops st.handlers
          (inr (other.new refl)) refl (other.opened refl) om (λ e. other.apart refl (sym e)) pos in
      let next =
        lower_elsifs-Arm l rest last merge arm.otherwise c b0 arm.after sound.1 loop lc arm.since
          pos arm.merge_open arm.other in
      record {
        after = next.after;
        otherwise = next.otherwise;
        runs = rw (start_block-eq-done x b st.closed (other.opened refl), arm.runs) next.runs;
        since = next.since;
        merge_open = next.merge_open;
        other = next.other;
      }

  -- A part that leaves the block behind the statement open.
  pub record Part (c : ℕ) (b0 : Builder F) (merge : ℕ) (r : Run (Builder F)) : Type 0 where
    pub after : Builder F
    pub runs : r ≡ done after
    pub since : Since c b0 after
    pub merge_open : Open after.blocks merge

  pub lower_part-Part :
      (l : Bool) (lower : Builder F → Run (Builder F)) (x merge c : ℕ) (b0 b : Builder F)
      → Sound l lower
      → InLoop l b0.loop_exit_stack
      → Since c b0 b
      → 0 < merge
      → Open b.blocks merge
      → Open b.blocks x
      → x ≢ merge
      → length b0.blocks ≤ x
      → Part c b0 merge (lower_part lower x merge b)
  lower_part-Part l lower x merge c b0 b sound loop st pos om o n le =
      let part =
        lower_part-Closes l lower x merge b sound st.valid (InLoop-eq l st.loops loop) st.closed o
          (pos, Open-lt om) in
      record {
        after = part.after;
        runs = part.runs;
        since = Since-Closes st (inr le) part;
        merge_open = Open-Grows part.grows (λ e. n (sym e)) om;
      }

  lower_else-Part :
      (l : Bool) (els : ElseBody F) (x merge c : ℕ) (b0 b : Builder F)
      → ElseSound l els
      → InLoop l b0.loop_exit_stack
      → Since c b0 b
      → 0 < merge
      → Open b.blocks merge
      → Other (has_else els) (length b0.blocks) merge x b
      → Part c b0 merge (lower_else els x merge b)
  unfolding lower_else ElseSound
  lower_else-Part l no_else x merge c b0 b sound loop st pos om other = record {
    after = b;
    runs = refl;
    since = st;
    merge_open = om;
  }
  lower_else-Part l (else_body body) x merge c b0 b sound loop st pos om other =
      lower_part-Part l (lower_stmts body) x merge c b0 b sound loop st pos om (other.opened refl)
        (other.apart refl) (other.new refl)

  -- The end of a statement of parts: the block behind it is opened if a part goes on there.
  pub Part-Lowers :
      {c merge : ℕ} {b0 : Builder F} {r r' : Run (Builder F)} (p : Part c b0 merge r)
      → length b0.blocks ≤ merge
      → r' ≡ start_if_reached merge p.after
      → Lowers c b0 r'
  Part-Lowers {c} {merge} {b0} p le e =
      start_if_reached-Lowers c merge b0 p.after p.since.valid p.since.grows p.since.closed
        p.since.loops p.since.handlers p.merge_open le e

  pub if-Sound :
      (l : Bool) (cond : HirExpr F) (then_body : HirStmts F) (elsifs : Elsifs F) (els : ElseBody F)
      (loc : SourceLoc)
      → Sound l (lower_stmts then_body)
      → ElsifsSound l elsifs
      → ElseSound l els
      → Sound l (lower_kind (if_stmt cond then_body elsifs els) loc)
  unfolding lower_kind
  if-Sound l cond then_body elsifs els loc sound elsifs_sound else_sound c b v loop at o =
      let a = new_block-Adds b v in
      let (b1, merge) = new_block b in
      let first =
        lower_arm-Arm l (lower_stmts then_body) cond (has_elsif elsifs || has_else els) merge c c b
          b1 sound (InLoop-eq l a.loops loop) a.valid (a.grows c) a.loops a.handlers (inl refl)
          (a.current ∙ at) (Open-Adds c a o) a.opened (λ e. omega (arith, e, a.number, Open-lt o))
          a.positive in
      let rest =
        lower_elsifs-Arm l elsifs (has_else els) merge first.otherwise c b first.after elsifs_sound
          loop (Open-lt o) first.since a.positive first.merge_open first.other in
      let last =
        lower_else-Part l els rest.otherwise merge c b rest.after else_sound loop rest.since
          a.positive rest.merge_open rest.other in
      Part-Lowers last (omega (arith, a.number)) (rw (first.runs, rest.runs, last.runs) refl)
