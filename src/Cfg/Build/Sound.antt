-- ===== src/Cfg/Build/Sound.antt =====
-- What it is for a lowering to be sound, and the pieces that the statements share (src/cfg/build.rs).
use mx.Common.{
  ℕ, ◌≤◌, ◌<◌, ◌≡◌, refl, sym, ◌∙◌, Bool, true, false, Bool-cases, none, some, List, [], ◌∷◌, arith,
  length, ◌⊎◌, inl, inr,
}
use mathlib.Core.Path.{subst}
use mx.Common.Runs.{Run, done, ◌>>=◌}
use mx.Cfg.Build.{
  Builder, start_block, start_if_reached, any_path_reaches, push_exit, pop_exit, popped,
}
use mx.Cfg.Build.Parts.{lower_part}
use mx.Cfg.Build.Inv.{Fits, AllFit, Open, Grows, Grows-trans}
use mx.Cfg.Build.Blocks.{IsValid, Closes, Now, closed, still, Lowers}
use mx.Cfg.Build.Steps.{start_block-eq-done, Keeps, goto_if_open-Closes}
use mx.Cfg.Build.Branches.{Fits-le}

-- Where an EXIT may stand there is a loop.
abbrev pub InLoop : Bool → List ℕ → Type 0
InLoop false ls = Unit
InLoop true ls = 0 < length ls

pub InLoop-cons : (l : Bool) (e : ℕ) (ls : List ℕ) → InLoop l (e ∷ ls)
InLoop-cons false e ls = tt
InLoop-cons true e ls = omega arith

pub InLoop-eq : (l : Bool) {ls ls' : List ℕ} → ls' ≡ ls → InLoop l ls → InLoop l ls'
InLoop-eq l e h = subst (λ z. InLoop l z) (sym e) h

AllFit-popped : (n : ℕ) (ls : List ℕ) → AllFit n ls → AllFit n (popped ls)
AllFit-popped n [] h = h
AllFit-popped n (l ∷ ls) h = h.1

true_case {ℓ} : {A : Type ℓ} (b : Bool) (x y : A) → b ≡ true → (elim b [ true ↦ x | false ↦ y ]) ≡ x
true_case true x y h = refl
true_case false x y h = cc

false_case {ℓ} :
    {A : Type ℓ} (b : Bool) (x y : A) → b ≡ false → (elim b [ true ↦ x | false ↦ y ]) ≡ y
false_case true x y h = cc
false_case false x y h = refl

module _ {F : Type 0} where
  -- From every valid state with an open block the lowering returns, and keeps to the current block
  -- and new ones.
  abbrev pub Sound : Bool → (Builder F → Run (Builder F)) → Type 0
  Sound l lower =
      (c : ℕ) (b : Builder F)
      → IsValid b
      → InLoop l b.loop_exit_stack
      → b.current ≡ some c
      → Open b.blocks c
      → Lowers c b (lower b)

  pub push_exit-IsValid :
      (e : ℕ) (b : Builder F) → IsValid b → Fits (length b.blocks) e → IsValid (push_exit e b)
  push_exit-IsValid e b v fit = record {
    blocks_fit = v.blocks_fit;
    entry_there = v.entry_there;
    exits_fit = (fit, v.exits_fit);
    handlers_fit = v.handlers_fit;
  }

  pub pop_exit-IsValid : (b : Builder F) → IsValid b → IsValid (pop_exit b)
  pop_exit-IsValid b v = record {
    blocks_fit = v.blocks_fit;
    entry_there = v.entry_there;
    exits_fit = AllFit-popped (length b.blocks) b.loop_exit_stack v.exits_fit;
    handlers_fit = v.handlers_fit;
  }

  -- A call that closes a block, as one that may leave a block open.
  pub Closes-Lowers : {c : ℕ} {b : Builder F} {r : Run (Builder F)} → Closes c b r → Lowers c b r
  Closes-Lowers s = record {
    after = s.after;
    runs = s.runs;
    valid = s.valid;
    grows = s.grows;
    now = closed s.closed;
    loops = s.loops;
    handlers = s.handlers;
  }

  pub Now-trans :
      {c c' : ℕ} {b mid after : Builder F}
      → length b.blocks ≤ length mid.blocks
      → ((c' ≡ c) ⊎ (length b.blocks ≤ c'))
      → Now c' mid after
      → Now c b after
  Now-trans le new (closed none_open) = closed none_open
  Now-trans {c} {c'} {b} le new (still d at o newer) = still d at o (elim newer [
    | inl same ↦ elim new [ inl is ↦ inl (same ∙ is) | inr ge ↦ inr (omega (arith, ge, same)) ]
    | inr ge ↦ inr (omega (arith, ge, le))
  ])

  -- A lowering behind steps that keep the current block.
  pub Lowers-behind :
      {c : ℕ} {b : Builder F} {r r' r'' : Run (Builder F)} (k : Keeps c b r)
      → Lowers c k.after r'
      → r'' ≡ r'
      → Lowers c b r''
  Lowers-behind {c} k low e = record {
    after = low.after;
    runs = e ∙ low.runs;
    valid = low.valid;
    grows = Grows-trans c c k.grows low.grows (inl refl);
    now = Now-trans k.grows.longer (inl refl) low.now;
    loops = low.loops ∙ k.loops;
    handlers = low.handlers ∙ k.handlers;
  }

  -- The last step of a statement: a new block is opened behind it.
  pub start_block-Lowers :
      (c x : ℕ) (b mid : Builder F) {r : Run (Builder F)}
      → IsValid mid
      → Grows c b.blocks mid.blocks
      → mid.current ≡ none
      → mid.loop_exit_stack ≡ b.loop_exit_stack
      → mid.handler_stack ≡ b.handler_stack
      → Open mid.blocks x
      → length b.blocks ≤ x
      → r ≡ start_block x mid
      → Lowers c b r
  start_block-Lowers c x b mid v g none_open ls hs o new e = record {
    after = record mid { current = some x };
    runs = e ∙ start_block-eq-done x mid none_open o;
    valid = v;
    grows = g;
    now = still x refl o (inr new);
    loops = ls;
    handlers = hs;
  }

  pub start_if_reached-Lowers :
      (c x : ℕ) (b mid : Builder F) {r : Run (Builder F)}
      → IsValid mid
      → Grows c b.blocks mid.blocks
      → mid.current ≡ none
      → mid.loop_exit_stack ≡ b.loop_exit_stack
      → mid.handler_stack ≡ b.handler_stack
      → Open mid.blocks x
      → length b.blocks ≤ x
      → r ≡ start_if_reached x mid
      → Lowers c b r
  unfolding start_if_reached
  start_if_reached-Lowers c x b mid v g none_open ls hs o new e =
      elim (Bool-cases (any_path_reaches x mid)) [
        | inl reached ↦
            start_block-Lowers c x b mid v g none_open ls hs o new
              (e ∙ true_case (any_path_reaches x mid) (start_block x mid) (done mid) reached)
        | inr unreached ↦ record {
          after = mid;
          runs = e ∙ false_case (any_path_reaches x mid) (start_block x mid) (done mid) unreached;
          valid = v;
          grows = g;
          now = closed none_open;
          loops = ls;
          handlers = hs;
        }
      ]

  -- A body in a block of its own.
  pub lower_part-Closes :
      (l : Bool) (lower : Builder F → Run (Builder F)) (x target : ℕ) (b : Builder F)
      → Sound l lower
      → IsValid b
      → InLoop l b.loop_exit_stack
      → b.current ≡ none
      → Open b.blocks x
      → Fits (length b.blocks) target
      → Closes x b (lower_part lower x target b)
  unfolding lower_part
  lower_part-Closes l lower x target b sound v loop none_open o fit =
      let started : Builder F = record b { current = some x } in
      let low = sound x started v loop refl o in
      let s =
        goto_if_open-Closes target x started low.after low.valid low.grows low.now low.loops
          low.handlers (Fits-le fit low.grows.longer) in
      record {
        after = s.after;
        runs = rw (start_block-eq-done x b none_open o, low.runs) s.runs;
        valid = s.valid;
        grows = s.grows;
        closed = s.closed;
        loops = s.loops;
        handlers = s.handlers;
      }

  -- One sound step after the other.
  pub Sound-then :
      (l : Bool) (f g : Builder F → Run (Builder F))
      → Sound l f
      → ((b : Builder F) → b.current ≡ none → g b ≡ done b)
      → Sound l g
      → Sound l (λ b. f b >>= g)
  Sound-then l f g sf idle sg c b v loop at o =
      let first = sf c b v loop at o in then_now first first.now
    where
      then_now : (first : Lowers c b (f b)) → Now c b first.after → Lowers c b (f b >>= g)
      then_now first (closed none_open) = record {
        after = first.after;
        runs = rw (first.runs, idle first.after none_open) refl;
        valid = first.valid;
        grows = first.grows;
        now = closed none_open;
        loops = first.loops;
        handlers = first.handlers;
      }
      then_now first (still c' at' o' new) =
          let second = sg c' first.after first.valid (InLoop-eq l first.loops loop) at' o' in
          record {
            after = second.after;
            runs = rw first.runs second.runs;
            valid = second.valid;
            grows = Grows-trans c c' first.grows second.grows new;
            now = Now-trans first.grows.longer new second.now;
            loops = second.loops ∙ first.loops;
            handlers = second.handlers ∙ first.handlers;
          }

  -- A state between the parts of a statement that began in `b0` with the block `c`: no block is open.
  pub record Since (c : ℕ) (b0 b : Builder F) : Type 0 where
    pub valid : IsValid b
    pub grows : Grows c b0.blocks b.blocks
    pub closed : b.current ≡ none
    pub loops : b.loop_exit_stack ≡ b0.loop_exit_stack
    pub handlers : b.handler_stack ≡ b0.handler_stack

  pub Since-Closes :
      {c d : ℕ} {b0 b : Builder F} {r : Run (Builder F)}
      → Since c b0 b
      → ((d ≡ c) ⊎ (length b0.blocks ≤ d))
      → (s : Closes d b r) → Since c b0 s.after
  Since-Closes {c} {d} st new s = record {
    valid = s.valid;
    grows = Grows-trans c d st.grows s.grows new;
    closed = s.closed;
    loops = s.loops ∙ st.loops;
    handlers = s.handlers ∙ st.handlers;
  }
