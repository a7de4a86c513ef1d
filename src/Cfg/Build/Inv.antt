-- ===== src/Cfg/Build/Inv.antt =====
-- The invariant of a graph under construction, and how it grows (src/cfg/build.rs).
use mx.Common.{
  ℕ, ◌≤◌, ◌<◌, ◌≡◌, ◌≢◌, refl, ◌∙◌, true, Option, none, some, List, [], ◌∷◌, ◌++◌, arith, length,
  get_elem?, get_elem?-lt, ◌⊎◌, inl, inr,
}
use mx.Cfg.{BasicBlock, block_successors}
use mx.Cfg.Verify.{arms_present}

-- A target is a block, but not the entry.
abbrev pub Fits : ℕ → ℕ → Type 0
Fits n t = (0 < t) × (t < n)

abbrev pub AllFit : ℕ → List ℕ → Type 0
AllFit n [] = Unit
AllFit n (t ∷ ts) = Fits n t × AllFit n ts

pub AllFit-le : (m n : ℕ) (ts : List ℕ) → m ≤ n → AllFit m ts → AllFit n ts
AllFit-le m n [] l h = tt
AllFit-le m n (t ∷ ts) l h = ((h.0.0, omega (arith, h.0.1, l)), AllFit-le m n ts l h.1)

pub AllFit-append : (n : ℕ) (xs ys : List ℕ) → AllFit n xs → AllFit n ys → AllFit n (xs ++ ys)
AllFit-append n [] ys h k = k
AllFit-append n (x ∷ xs) ys h k = (h.0, AllFit-append n xs ys h.1 k)

module _ {F : Type 0} where
  -- The block is there, with no terminator.
  pub record Open (bs : List (BasicBlock F)) (i : ℕ) : Type 0 where
    pub block : BasicBlock F
    pub found : get_elem? bs i ≡ some block
    pub unsealed : block.terminator ≡ none

  -- The block is there, with no handler.
  pub record Unhandled (bs : List (BasicBlock F)) (i : ℕ) : Type 0 where
    pub block : BasicBlock F
    pub found : get_elem? bs i ≡ some block
    pub unhandled : block.handler ≡ none

  abbrev pub AllUnhandled : List (BasicBlock F) → List ℕ → Type 0
  AllUnhandled bs [] = Unit
  AllUnhandled bs (h ∷ hs) = Unhandled bs h × AllUnhandled bs hs

  abbrev pub HandlerFits : List (BasicBlock F) → Option ℕ → Type 0
  HandlerFits bs none = Unit
  HandlerFits bs (some h) = Unhandled bs h

  pub record BlockFits (bs : List (BasicBlock F)) (i : ℕ) (block : BasicBlock F) : Type 0 where
    pub numbered : block.id ≡ i
    pub targets : AllFit (length bs) (block_successors block.terminator)
    pub arms : arms_present block.terminator ≡ true
    pub handled : HandlerFits bs block.handler

  pub record Inv (bs : List (BasicBlock F)) (loops handlers : List ℕ) : Type 0 where
    pub blocks_fit :
        (i : ℕ) (block : BasicBlock F) → get_elem? bs i ≡ some block → BlockFits bs i block
    pub entry_there : 0 < length bs
    pub exits_fit : AllFit (length bs) loops
    pub handlers_fit : AllUnhandled bs handlers

  -- From one graph to a later one: only the block `c` and new blocks have changed, and no handler.
  pub record Grows (c : ℕ) (bs bs' : List (BasicBlock F)) : Type 0 where
    pub longer : length bs ≤ length bs'
    pub same :
        (i : ℕ) (block : BasicBlock F)
        → get_elem? bs i ≡ some block
        → i ≢ c
        → get_elem? bs' i ≡ some block
    pub handlers_same :
        (i : ℕ) (block : BasicBlock F)
        → get_elem? bs i ≡ some block
        → (block' : BasicBlock F) × ((get_elem? bs' i ≡ some block')
            × (block'.handler ≡ block.handler))

  pub Grows-refl : (c : ℕ) (bs : List (BasicBlock F)) → Grows c bs bs
  Grows-refl c bs = record {
    longer = omega arith;
    same = λ i block e n. e;
    handlers_same = λ i block e. (block, (e, refl));
  }

  -- The later step changes the same block, or one that is new.
  pub Grows-trans :
      (c d : ℕ) {bs bs' bs'' : List (BasicBlock F)}
      → Grows c bs bs'
      → Grows d bs' bs''
      → ((d ≡ c) ⊎ (length bs ≤ d))
      → Grows c bs bs''
  Grows-trans c d {bs} {bs'} {bs''} g h new = record {
    longer = omega (arith, g.longer, h.longer);
    same = λ i block e n. h.same i block (g.same i block e n) (λ is. elim new [
      | inl at ↦ n (is ∙ at)
      | inr le ↦ absurd (omega (arith, le, is, get_elem?-lt bs i e))
    ]);
    handlers_same = λ i block e.
        let (block', (f, p)) = g.handlers_same i block e in
        let (block'', (k, q)) = h.handlers_same i block' f in (block'', (k, q ∙ p));
  }

  pub Open-Grows :
      {c i : ℕ} {bs bs' : List (BasicBlock F)} → Grows c bs bs' → i ≢ c → Open bs i → Open bs' i
  Open-Grows {c} {i} g n o = record {
    block = o.block;
    found = g.same i o.block o.found n;
    unsealed = o.unsealed;
  }

  pub Open-lt : {i : ℕ} {bs : List (BasicBlock F)} → Open bs i → i < length bs
  Open-lt {i} {bs} o = get_elem?-lt bs i o.found

  pub Unhandled-Grows :
      {c i : ℕ} {bs bs' : List (BasicBlock F)} → Grows c bs bs' → Unhandled bs i → Unhandled bs' i
  Unhandled-Grows {c} {i} g u =
      let (block', (f, p)) = g.handlers_same i u.block u.found in
      record { block = block'; found = f; unhandled = p ∙ u.unhandled }

  pub AllUnhandled-Grows :
      {c : ℕ} {bs bs' : List (BasicBlock F)} (hs : List ℕ)
      → Grows c bs bs'
      → AllUnhandled bs hs
      → AllUnhandled bs' hs
  AllUnhandled-Grows [] g u = tt
  AllUnhandled-Grows (h ∷ hs) g u = (Unhandled-Grows g u.0, AllUnhandled-Grows hs g u.1)

  pub HandlerFits-Grows :
      {c : ℕ} {bs bs' : List (BasicBlock F)} (h : Option ℕ)
      → Grows c bs bs'
      → HandlerFits bs h
      → HandlerFits bs' h
  HandlerFits-Grows none g u = tt
  HandlerFits-Grows (some h) g u = Unhandled-Grows g u

  pub BlockFits-Grows :
      {c i : ℕ} {bs bs' : List (BasicBlock F)} {block : BasicBlock F}
      → Grows c bs bs'
      → BlockFits bs i block
      → BlockFits bs' i block
  BlockFits-Grows {c} {i} {bs} {bs'} {block} g f = record {
    numbered = f.numbered;
    targets =
        AllFit-le (length bs) (length bs') (block_successors block.terminator) g.longer f.targets;
    arms = f.arms;
    handled = HandlerFits-Grows block.handler g f.handled;
  }
