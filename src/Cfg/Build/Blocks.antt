-- ===== src/Cfg/Build/Blocks.antt =====
-- Blocks of `CfgBuilder` that change and blocks that are new (src/cfg/build.rs).
use mx.Common.{
  ℕ, zero, suc, ◌≤◌, ◌<◌, ◌≡◌, ◌≢◌, refl, sym, ap, ◌∙◌, true, Option, none, some, some_inj, List,
  [], ◌∷◌, ◌++◌, arith, length, length-append, length-set, get_elem?, set, get_elem?-lt,
  get_elem?-append_left, get_elem?-concat, get_elem?-set_self, get_elem?-set_ne, ◌⊎◌, inl, inr,
}
use mathlib.Core.Path.{subst}
use mx.Common.Runs.{Run, done}
use mx.Cfg.{BasicBlock, block_successors}
use mx.Cfg.Verify.{arms_present}
use mx.Cfg.Build.{Builder, top, open_block, add_block, new_block, new_block_no_handler}
use mx.Cfg.Build.Inv.{
  AllFit, AllFit-le, Open, Unhandled, AllUnhandled, AllUnhandled-Grows, HandlerFits,
  HandlerFits-Grows, BlockFits, BlockFits-Grows, Inv, Grows,
}

pub eq_or_ne : (i j : ℕ) → (i ≡ j) ⊎ (i ≢ j)
eq_or_ne zero zero = inl refl
eq_or_ne zero (suc j) = inr (λ e. omega (arith, e))
eq_or_ne (suc i) zero = inr (λ e. omega (arith, e))
eq_or_ne (suc i) (suc j) = elim (eq_or_ne i j) [
  | inl e ↦ inl (ap suc e)
  | inr n ↦ inr (λ e. n (omega (arith, e)))
]

get_elem?-concat_cases {ℓ} :
    {A : Type ℓ} (xs : List A) (x y : A) (i : ℕ)
    → get_elem? (xs ++ x ∷ []) i ≡ some y
    → (get_elem? xs i ≡ some y) ⊎ ((i ≡ length xs) × (y ≡ x))
get_elem?-concat_cases [] x y zero h = inr (refl, cc)
get_elem?-concat_cases [] x y (suc i) h = cc
get_elem?-concat_cases (z ∷ xs) x y zero h = inl h
get_elem?-concat_cases (z ∷ xs) x y (suc i) h = elim (get_elem?-concat_cases xs x y i h) [
  | inl e ↦ inl e
  | inr (at, e) ↦ inr (ap suc at, e)
]

arms_present-none : (F : Type 0) → arms_present {F = F} none ≡ true
unfolding arms_present
arms_present-none F = refl

pub none_case {ℓ} :
    {A : Type ℓ} (o : Option ℕ) (x : A) (y : ℕ → A)
    → o ≡ none
    → (elim o [ none ↦ x | some id ↦ y id ]) ≡ x
none_case none x y h = refl
none_case (some c) x y h = cc

pub some_case {ℓ} :
    {A : Type ℓ} (o : Option ℕ) {c : ℕ} (x y : A)
    → o ≡ some c
    → (elim o [ none ↦ x | some id ↦ y ]) ≡ y
some_case none x y h = cc
some_case (some c) x y h = refl

module _ {F : Type 0} where
  -- The invariant of the whole state.
  abbrev pub IsValid : Builder F → Type 0
  IsValid b = Inv b.blocks b.loop_exit_stack b.handler_stack

  -- A call that seals the current block `c` and leaves none open.
  pub record Closes (c : ℕ) (b : Builder F) (r : Run (Builder F)) : Type 0 where
    pub after : Builder F
    pub runs : r ≡ done after
    pub valid : IsValid after
    pub grows : Grows c b.blocks after.blocks
    pub closed : after.current ≡ none
    pub loops : after.loop_exit_stack ≡ b.loop_exit_stack
    pub handlers : after.handler_stack ≡ b.handler_stack

  -- Where the state is behind a call with the current block `c`: no block is open, or that one or a new one.
  pub data Now (c : ℕ) (b after : Builder F) : Type 0 where
    closed : after.current ≡ none → Now c b after
    still :
        (c' : ℕ)
        → after.current ≡ some c'
        → Open after.blocks c'
        → ((c' ≡ c) ⊎ (length b.blocks ≤ c'))
        → Now c b after

  pub record Lowers (c : ℕ) (b : Builder F) (r : Run (Builder F)) : Type 0 where
    pub after : Builder F
    pub runs : r ≡ done after
    pub valid : IsValid after
    pub grows : Grows c b.blocks after.blocks
    pub now : Now c b after
    pub loops : after.loop_exit_stack ≡ b.loop_exit_stack
    pub handlers : after.handler_stack ≡ b.handler_stack

  -- A new block.
  pub record Adds (b : Builder F) (p : Builder F × ℕ) : Type 0 where
    pub valid : IsValid p.0
    pub number : p.1 ≡ length b.blocks
    pub longer : length p.0.blocks ≡ suc (length b.blocks)
    pub positive : 0 < p.1
    pub grows : (c : ℕ) → Grows c b.blocks p.0.blocks
    pub opened : Open p.0.blocks p.1
    pub current : p.0.current ≡ b.current
    pub loops : p.0.loop_exit_stack ≡ b.loop_exit_stack
    pub handlers : p.0.handler_stack ≡ b.handler_stack

  -- One block gets other contents, with the same number and handler.
  module _ (bs : List (BasicBlock F)) (c : ℕ) (block block' : BasicBlock F)
      (found : get_elem? bs c ≡ some block) (same_handler : block'.handler ≡ block.handler) where
    pub Grows-set : Grows c bs (set bs c block')
    Grows-set = record {
      longer = omega (arith, length-set bs c block');
      same = λ i b e n. get_elem?-set_ne bs c i block' (λ is. n (sym is)) ∙ e;
      handlers_same = λ i b e. elim (eq_or_ne c i) [
        | inl is ↦ (
          block',
          (
            subst (λ z. get_elem? (set bs c block') z ≡ some block') is
                (get_elem?-set_self bs c block' (get_elem?-lt bs c found)),
            same_handler
                ∙ ap (λ (z : BasicBlock F). z.handler)
                    (some_inj (sym found ∙ subst (λ z. get_elem? bs z ≡ some b) (sym is) e)),
          ),
        )
        | inr n ↦ (b, (get_elem?-set_ne bs c i block' n ∙ e, refl))
      ];
    }

    pub Inv-set :
        {loops handlers : List ℕ}
        → Inv bs loops handlers
        → block'.id ≡ block.id
        → AllFit (length bs) (block_successors block'.terminator)
        → arms_present block'.terminator ≡ true
        → Inv (set bs c block') loops handlers
    Inv-set {loops} {handlers} v numbered targets arms = record {
      blocks_fit = λ i b e. elim (eq_or_ne c i) [
        | inl is ↦
            let e' : get_elem? (set bs c block') c ≡ some b =
              subst (λ z. get_elem? (set bs c block') z ≡ some b) (sym is) e in
            let new : block' ≡ b =
              some_inj (sym (get_elem?-set_self bs c block' (get_elem?-lt bs c found)) ∙ e') in
            let old = v.blocks_fit c block found in
            subst (λ z. BlockFits (set bs c block') i z) new
              (record {
                numbered = numbered ∙ old.numbered ∙ is;
                targets =
                    AllFit-le (length bs) (length (set bs c block'))
                      (block_successors block'.terminator) Grows-set.longer targets;
                arms = arms;
                handled =
                    subst (λ z. HandlerFits (set bs c block') z) (sym same_handler)
                      (HandlerFits-Grows block.handler Grows-set old.handled);
              })
        | inr n ↦
            BlockFits-Grows Grows-set
              (v.blocks_fit i b (sym (get_elem?-set_ne bs c i block' n) ∙ e))
      ];
      entry_there = omega (arith, v.entry_there, Grows-set.longer);
      exits_fit =
          AllFit-le (length bs) (length (set bs c block')) loops Grows-set.longer v.exits_fit;
      handlers_fit = AllUnhandled-Grows handlers Grows-set v.handlers_fit;
    }

  -- A new block at the end.
  module _ (bs : List (BasicBlock F)) (handler : Option ℕ) where
    abbrev with_new : List (BasicBlock F)
    with_new = bs ++ open_block (length bs) handler ∷ []

    length-with_new : length with_new ≡ suc (length bs)
    length-with_new = omega (arith, length-append bs (open_block (length bs) handler ∷ []))

    Grows-with_new : (c : ℕ) → Grows c bs with_new
    Grows-with_new c = record {
      longer = omega (arith, length-with_new);
      same = λ i b e n.
          get_elem?-append_left bs (open_block (length bs) handler ∷ []) i (get_elem?-lt bs i e)
          ∙ e;
      handlers_same = λ i b e. (
        b,
        (
          get_elem?-append_left bs (open_block (length bs) handler ∷ []) i (get_elem?-lt bs i e)
              ∙ e,
          refl,
        ),
      );
    }

    Inv-with_new :
        {loops handlers : List ℕ}
        → Inv bs loops handlers
        → HandlerFits bs handler
        → Inv with_new loops handlers
    Inv-with_new {loops} {handlers} v fit = record {
      blocks_fit = λ i b e.
          elim (get_elem?-concat_cases bs (open_block (length bs) handler) b i e) [
            | inl old ↦ BlockFits-Grows (Grows-with_new 0) (v.blocks_fit i b old)
            | inr (at, new) ↦
                subst (λ z. BlockFits with_new i z) (sym new)
                  (record {
                    numbered = sym at;
                    targets = tt;
                    arms = arms_present-none F;
                    handled = HandlerFits-Grows handler (Grows-with_new 0) fit;
                  })
          ];
      entry_there = omega (arith, length-with_new);
      exits_fit =
          AllFit-le (length bs) (length with_new) loops (omega (arith, length-with_new))
            v.exits_fit;
      handlers_fit = AllUnhandled-Grows handlers (Grows-with_new 0) v.handlers_fit;
    }

  add_block-Adds :
      (h : Option ℕ) (b : Builder F) → IsValid b → HandlerFits b.blocks h → Adds b (add_block h b)
  add_block-Adds h b v fit = record {
    valid = Inv-with_new b.blocks h v fit;
    number = refl;
    longer = length-with_new b.blocks h;
    positive = v.entry_there;
    grows = Grows-with_new b.blocks h;
    opened = record {
      block = open_block (length b.blocks) h;
      found = get_elem?-concat b.blocks (open_block (length b.blocks) h);
      unsealed = refl;
    };
    current = refl;
    loops = refl;
    handlers = refl;
  }

  top-HandlerFits :
      (bs : List (BasicBlock F)) (hs : List ℕ) → AllUnhandled bs hs → HandlerFits bs (top hs)
  top-HandlerFits bs [] u = tt
  top-HandlerFits bs (h ∷ hs) u = u.0

  pub new_block-Adds : (b : Builder F) → IsValid b → Adds b (new_block b)
  unfolding new_block
  new_block-Adds b v =
      add_block-Adds (top b.handler_stack) b v
        (top-HandlerFits b.blocks b.handler_stack v.handlers_fit)

  pub new_block_no_handler-Adds : (b : Builder F) → IsValid b → Adds b (new_block_no_handler b)
  unfolding new_block_no_handler
  new_block_no_handler-Adds b v = add_block-Adds none b v tt

  pub new_block_no_handler-Unhandled :
      (b : Builder F) → Unhandled (new_block_no_handler b).0.blocks (new_block_no_handler b).1
  unfolding new_block_no_handler
  new_block_no_handler-Unhandled b = record {
    block = open_block (length b.blocks) none;
    found = get_elem?-concat b.blocks (open_block (length b.blocks) none);
    unhandled = refl;
  }
