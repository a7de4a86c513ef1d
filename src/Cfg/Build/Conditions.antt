-- ===== src/Cfg/Build/Conditions.antt =====
-- What the blocks of a condition do when they run (`lower_expr_as_branch` of src/cfg/build.rs).
use mx.Common.{
  ℕ, ◌≤◌, ◌<◌, ◌≡◌, ◌≢◌, refl, sym, ap, ◌∙◌, Bool, true, false, not, none, some, List, arith,
  length, get_elem?, set, get_elem?-set_self, ◌⊎◌, inl, inr,
}
use mathlib.Core.Path.{subst}
use mx.Common.Runs.{done, done_inj}
use mx.Hir.{HirExpr, expr, binary_op, not_expr, and_op, or_op}
use mx.Cfg.{Terminator, branch, BasicBlock}
use mx.Cfg.Build.{Builder, new_block, seal}
use mx.Cfg.Build.Exprs.{lower_expr_as_branch}
use mx.Cfg.Build.Inv.{Fits, Open, Grows, Open-Grows, Open-lt}
use mx.Cfg.Build.Blocks.{IsValid, new_block-Adds}
use mx.Cfg.Build.Steps.{start_block-eq-done}
use mx.Cfg.Build.Branches.{Fits-le, Open-Adds, lower_expr_as_branch-Closes}

abbrev pub pick : Bool → ℕ → ℕ → ℕ
pick true t f = t
pick false t f = f

pick-not : (p : Bool) (t f : ℕ) → pick p f t ≡ pick (not p) t f
pick-not true t f = refl
pick-not false t f = refl

abbrev and_then : {S : Type 0} → Bool → S → (S → Bool × S) → Bool × S
and_then true s next = next s
and_then false s next = (false, s)

abbrev or_else : {S : Type 0} → Bool → S → (S → Bool × S) → Bool × S
or_else true s next = (true, s)
or_else false s next = next s

module _ {F : Type 0} where
  sealed-found :
      (t : Terminator F) (c : ℕ) (b after : Builder F)
      → b.current ≡ some c
      → (o : Open b.blocks c) → seal t b ≡ done after
      → get_elem? after.blocks c ≡ some (record o.block { terminator = some t })
  unfolding seal
  sealed-found t c b after at o h =
      let runs : seal t b
          ≡ done (record b {
            blocks = set b.blocks c (record o.block { terminator = some t });
            current = none;
          }) =
        rw (at, o.found, o.unsealed) refl in
      ap (λ (z : Builder F). get_elem? z.blocks c) (done_inj (sym h ∙ runs))
      ∙ get_elem?-set_self b.blocks c (record o.block { terminator = some t }) (Open-lt o)

module _ {F : Type 0} {S : Type 0} where
  -- The value of a condition in a state, and the state behind it: `eval` evaluates the parts, which may
  -- change the state. The second part of AND is evaluated only behind a true first one, that of OR only
  -- behind a false one.
  unfoldable pub evaluate : (HirExpr F → S → Bool × S) → HirExpr F → S → Bool × S
  evaluate eval (expr (binary_op and_op left right) typ loc) s =
      and_then (evaluate eval left s).0 (evaluate eval left s).1 (evaluate eval right)
  evaluate eval (expr (binary_op or_op left right) typ loc) s =
      or_else (evaluate eval left s).0 (evaluate eval left s).1 (evaluate eval right)
  evaluate eval (expr (not_expr inner) typ loc) s =
      (not (evaluate eval inner s).0, (evaluate eval inner s).1)
  evaluate eval e s = eval e s

  -- A run over branches from one block and state to others, all the blocks `c` or from `lo` on. A branch
  -- evaluates its condition once.
  pub data Goes (eval : HirExpr F → S → Bool × S) (bs : List (BasicBlock F)) (c lo : ℕ)
      : ℕ → S → ℕ → S → Type 0 where
    step :
        {i : ℕ} (s : S) (cond : HirExpr F) (t f : ℕ) (block : BasicBlock F)
        → ((i ≡ c) ⊎ (lo ≤ i))
        → get_elem? bs i ≡ some block
        → block.terminator ≡ some (branch cond t f)
        → Goes eval bs c lo i s (pick (eval cond s).0 t f) (eval cond s).1
    then :
        {i j k : ℕ} {s1 s2 s3 : S}
        → Goes eval bs c lo i s1 j s2
        → Goes eval bs c lo j s2 k s3
        → Goes eval bs c lo i s1 k s3

  -- A later graph that changes none of these blocks has the run too.
  Goes-Grows :
      {eval : HirExpr F → S → Bool × S} {d c lo c' lo' : ℕ} {bs bs' : List (BasicBlock F)} {i : ℕ}
      {s1 : S} {k : ℕ} {s2 : S}
      → Grows d bs bs'
      → d ≢ c
      → d < lo
      → ((i' : ℕ) → (i' ≡ c) ⊎ (lo ≤ i') → (i' ≡ c') ⊎ (lo' ≤ i'))
      → Goes eval bs c lo i s1 k s2
      → Goes eval bs' c' lo' i s1 k s2
  Goes-Grows {eval} {d} {c} {lo} {c'} {lo'} {bs} {bs'} {i} g n l w
        (step s cond t f block at found is) =
      step s cond t f block (w i at)
        (g.same i block found
          (λ e. elim at [ inl a ↦ n (sym e ∙ a) | inr a ↦ absurd (omega (arith, a, e, l)) ]))
        is
  Goes-Grows g n l w (then r s) = then (Goes-Grows g n l w r) (Goes-Grows g n l w s)

  Goes-within :
      {eval : HirExpr F → S → Bool × S} {c lo c' lo' : ℕ} {bs : List (BasicBlock F)} {i : ℕ}
      {s1 : S} {k : ℕ} {s2 : S}
      → ((i' : ℕ) → (i' ≡ c) ⊎ (lo ≤ i') → (i' ≡ c') ⊎ (lo' ≤ i'))
      → Goes eval bs c lo i s1 k s2
      → Goes eval bs c' lo' i s1 k s2
  Goes-within {eval} {c} {lo} {c'} {lo'} {bs} {i} w (step s cond t f block at found is) =
      step s cond t f block (w i at) found is
  Goes-within w (then r s) = then (Goes-within w r) (Goes-within w s)

  and-Goes :
      {eval : HirExpr F → S → Bool × S} {bs : List (BasicBlock F)} {c lo i : ℕ} {s1 : S} (p : Bool)
      (s2 : S) (next : S → Bool × S) (rhs t f : ℕ)
      → Goes eval bs c lo i s1 (pick p rhs f) s2
      → Goes eval bs c lo rhs s2 (pick (next s2).0 t f) (next s2).1
      → Goes eval bs c lo i s1 (pick (and_then p s2 next).0 t f) (and_then p s2 next).1
  and-Goes true s2 next rhs t f one two = then one two
  and-Goes false s2 next rhs t f one two = one

  or-Goes :
      {eval : HirExpr F → S → Bool × S} {bs : List (BasicBlock F)} {c lo i : ℕ} {s1 : S} (p : Bool)
      (s2 : S) (next : S → Bool × S) (rhs t f : ℕ)
      → Goes eval bs c lo i s1 (pick p t rhs) s2
      → Goes eval bs c lo rhs s2 (pick (next s2).0 t f) (next s2).1
      → Goes eval bs c lo i s1 (pick (or_else p s2 next).0 t f) (or_else p s2 next).1
  or-Goes true s2 next rhs t f one two = one
  or-Goes false s2 next rhs t f one two = then one two

  -- A condition in the current block `c`: the run from `c` ends where its value says.
  condition-Goes :
      (eval : HirExpr F → S → Bool × S) (s : S) (e : HirExpr F) (t f c : ℕ) (b after : Builder F)
      → IsValid b
      → b.current ≡ some c
      → Open b.blocks c
      → Fits (length b.blocks) t
      → Fits (length b.blocks) f
      → lower_expr_as_branch e t f b ≡ done after
      → Goes eval after.blocks c
          (length b.blocks)
          c
          s
          (pick (evaluate eval e s).0 t f)
          (evaluate eval e s).1
  unfolding lower_expr_as_branch evaluate
  condition-Goes eval s (expr (binary_op and_op left right) typ loc) t f c b after v at o ft ff
        run =
      let a = new_block-Adds b v in
      let rhs = (new_block b).1 in
      let n : length b.blocks ≤ length (new_block b).0.blocks = omega (arith, a.longer) in
      let fit_rhs : Fits (length (new_block b).0.blocks) rhs =
        (a.positive, omega (arith, a.number, a.longer)) in
      let first =
        lower_expr_as_branch-Closes left rhs f c (new_block b).0 a.valid (a.current ∙ at)
          (Open-Adds c a o) fit_rhs (Fits-le ff n) in
      let left_goes =
        condition-Goes eval s left rhs f c (new_block b).0 first.after a.valid (a.current ∙ at)
          (Open-Adds c a o) fit_rhs (Fits-le ff n) first.runs in
      let opened = Open-Grows first.grows (λ e. omega (arith, e, Open-lt o, a.number)) a.opened in
      let m : length b.blocks ≤ length first.after.blocks = omega (arith, n, first.grows.longer) in
      let started : Builder F = record first.after { current = some rhs } in
      let second =
        lower_expr_as_branch-Closes right t f rhs started first.valid refl opened (Fits-le ft m)
          (Fits-le ff m) in
      let right_goes =
        condition-Goes eval (evaluate eval left s).1 right t f rhs started second.after first.valid
          refl opened (Fits-le ft m) (Fits-le ff m) second.runs in
      let wide : (i : ℕ)
          → (i ≡ c) ⊎ (length (new_block b).0.blocks ≤ i)
          → (i ≡ c) ⊎ (length b.blocks ≤ i) =
        λ i w. elim w [ inl e ↦ inl e | inr l ↦ inr (omega (arith, l, n)) ] in
      let wide_rhs : (i : ℕ)
          → (i ≡ rhs) ⊎ (length first.after.blocks ≤ i)
          → (i ≡ c) ⊎ (length b.blocks ≤ i) =
        λ i w. elim w [
          | inl e ↦ inr (omega (arith, e, a.number))
          | inr l ↦ inr (omega (arith, l, m))
        ] in
      let is : second.after ≡ after = done_inj (
        sym (rw (first.runs, start_block-eq-done rhs first.after first.closed opened) second.runs)
        ∙ run) in
      subst
        (λ (z : Builder F).
          Goes eval z.blocks c (length b.blocks) c s
            (pick
              (and_then (evaluate eval left s).0 (evaluate eval left s).1 (evaluate eval right)).0 t
              f)
            (and_then (evaluate eval left s).0 (evaluate eval left s).1 (evaluate eval right)).1)
        is
        (and-Goes (evaluate eval left s).0 (evaluate eval left s).1 (evaluate eval right) rhs t f
          (Goes-Grows second.grows (λ e. omega (arith, e, Open-lt o, a.number))
            (omega (arith, a.number, a.longer)) wide left_goes)
          (Goes-within wide_rhs right_goes))
  condition-Goes eval s (expr (binary_op or_op left right) typ loc) t f c b after v at o ft ff run =
      let a = new_block-Adds b v in
      let rhs = (new_block b).1 in
      let n : length b.blocks ≤ length (new_block b).0.blocks = omega (arith, a.longer) in
      let fit_rhs : Fits (length (new_block b).0.blocks) rhs =
        (a.positive, omega (arith, a.number, a.longer)) in
      let first =
        lower_expr_as_branch-Closes left t rhs c (new_block b).0 a.valid (a.current ∙ at)
          (Open-Adds c a o) (Fits-le ft n) fit_rhs in
      let left_goes =
        condition-Goes eval s left t rhs c (new_block b).0 first.after a.valid (a.current ∙ at)
          (Open-Adds c a o) (Fits-le ft n) fit_rhs first.runs in
      let opened = Open-Grows first.grows (λ e. omega (arith, e, Open-lt o, a.number)) a.opened in
      let m : length b.blocks ≤ length first.after.blocks = omega (arith, n, first.grows.longer) in
      let started : Builder F = record first.after { current = some rhs } in
      let second =
        lower_expr_as_branch-Closes right t f rhs started first.valid refl opened (Fits-le ft m)
          (Fits-le ff m) in
      let right_goes =
        condition-Goes eval (evaluate eval left s).1 right t f rhs started second.after first.valid
          refl opened (Fits-le ft m) (Fits-le ff m) second.runs in
      let wide : (i : ℕ)
          → (i ≡ c) ⊎ (length (new_block b).0.blocks ≤ i)
          → (i ≡ c) ⊎ (length b.blocks ≤ i) =
        λ i w. elim w [ inl e ↦ inl e | inr l ↦ inr (omega (arith, l, n)) ] in
      let wide_rhs : (i : ℕ)
          → (i ≡ rhs) ⊎ (length first.after.blocks ≤ i)
          → (i ≡ c) ⊎ (length b.blocks ≤ i) =
        λ i w. elim w [
          | inl e ↦ inr (omega (arith, e, a.number))
          | inr l ↦ inr (omega (arith, l, m))
        ] in
      let is : second.after ≡ after = done_inj (
        sym (rw (first.runs, start_block-eq-done rhs first.after first.closed opened) second.runs)
        ∙ run) in
      subst
        (λ (z : Builder F).
          Goes eval z.blocks c (length b.blocks) c s
            (pick
              (or_else (evaluate eval left s).0 (evaluate eval left s).1 (evaluate eval right)).0 t
              f)
            (or_else (evaluate eval left s).0 (evaluate eval left s).1 (evaluate eval right)).1)
        is
        (or-Goes (evaluate eval left s).0 (evaluate eval left s).1 (evaluate eval right) rhs t f
          (Goes-Grows second.grows (λ e. omega (arith, e, Open-lt o, a.number))
            (omega (arith, a.number, a.longer)) wide left_goes)
          (Goes-within wide_rhs right_goes))
  condition-Goes eval s (expr (not_expr inner) typ loc) t f c b after v at o ft ff run =
      subst (λ z. Goes eval after.blocks c (length b.blocks) c s z (evaluate eval inner s).1)
        (pick-not (evaluate eval inner s).0 t f)
        (condition-Goes eval s inner f t c b after v at o ff ft run)
  condition-Goes eval s e t f c b after v at o ft ff run =
      step s e t f (record o.block { terminator = some (branch e t f) }) (inl refl)
        (sealed-found (branch e t f) c b after at o run) refl

  -- Lowering a condition returns, and in the graph that it leaves a run from the current block `c`, over `c`
  -- and new blocks only, ends at `t` where the condition is true and at `f` where it is false, in the state
  -- that evaluating the condition leaves. The parts are evaluated by any `eval` with effects on a state of
  -- any type, from left to right, and the second part of AND and OR only where the first does not decide: so
  -- the branches evaluate the same parts in the same order.
  pub lower_expr_as_branch-decides :
      (eval : HirExpr F → S → Bool × S) (s : S) (e : HirExpr F) (t f c : ℕ) (b : Builder F)
      → IsValid b
      → b.current ≡ some c
      → Open b.blocks c
      → Fits (length b.blocks) t
      → Fits (length b.blocks) f
      → (after : Builder F) × ((lower_expr_as_branch e t f b ≡ done after)
          × Goes eval after.blocks c
              (length b.blocks)
              c
              s
              (pick (evaluate eval e s).0 t f)
              (evaluate eval e s).1)
  lower_expr_as_branch-decides eval s e t f c b v at o ft ff =
      let closes = lower_expr_as_branch-Closes e t f c b v at o ft ff in
      (
        closes.after,
        (closes.runs, condition-Goes eval s e t f c b closes.after v at o ft ff closes.runs),
      )
