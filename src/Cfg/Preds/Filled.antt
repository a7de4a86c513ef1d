-- ===== src/Cfg/Preds/Filled.antt =====
-- What `compute_preds` fills in (src/cfg/mod.rs).
use mx.Common.{
  ℕ, ◌<◌, ◌≡◌, refl, sym, ◌∙◌, Bool, Bool-cases, true, false, ◌||◌, ◌==◌, ==_iff, some, some_inj,
  List, [], ◌∷◌, ◌++◌, arith, length, length-set, get_elem?, set, get_elem?-lt, get_elem?-some,
  get_elem?-set_self, get_elem?-set_ne, ◌⊎◌, inl, inr,
}
use mathlib.Core.Path.{subst}
use mx.Common.Runs.{Run, done}
use mx.Cfg.{BasicBlock, contains, block_successors}
use mx.Cfg.Preds.{add_pred, add_preds, preds_of}
use mx.Cfg.Verify.{has_pred, no_pred_of, has_successor}
use mx.Cfg.Build.Blocks.{eq_or_ne}

==-same : (n : ℕ) → (n == n) ≡ true
==-same n = (==_iff n n).1 refl

pub ||-true : (a b : Bool) → (a || b) ≡ true → (a ≡ true) ⊎ (b ≡ true)
||-true true b h = inl refl
||-true false b h = inr h

||-right : (a b : Bool) → b ≡ true → (a || b) ≡ true
||-right true b h = refl
||-right false b h = h

contains-append_self : (ps : List ℕ) (id : ℕ) → contains (ps ++ id ∷ []) id ≡ true
contains-append_self [] id = rw (==-same id) refl
contains-append_self (p ∷ ps) id =
    ||-right (p == id) (contains (ps ++ id ∷ []) id) (contains-append_self ps id)

contains-append_left :
    (ps : List ℕ) (id x : ℕ) → contains ps x ≡ true → contains (ps ++ id ∷ []) x ≡ true
contains-append_left [] id x h = cc
contains-append_left (p ∷ ps) id x h = elim (||-true (p == x) (contains ps x) h) [
  | inl e ↦ rw e refl
  | inr e ↦ ||-right (p == x) (contains (ps ++ id ∷ []) x) (contains-append_left ps id x e)
]

contains-append_cases :
    (ps : List ℕ) (id x : ℕ) → contains (ps ++ id ∷ []) x ≡ true → (contains ps x ≡ true) ⊎ (id ≡ x)
contains-append_cases [] id x h = elim (||-true (id == x) false h) [
  | inl e ↦ inr ((==_iff id x).0 e)
  | inr e ↦ cc
]
contains-append_cases (p ∷ ps) id x h = elim (||-true (p == x) (contains (ps ++ id ∷ []) x) h) [
  | inl e ↦ inl (rw e refl)
  | inr e ↦ elim (contains-append_cases ps id x e) [
    | inl c ↦ inl (||-right (p == x) (contains ps x) c)
    | inr is ↦ inr is
  ]
]

has_pred-eq :
    (preds : List (List ℕ)) (id t : ℕ) {ps : List ℕ}
    → get_elem? preds t ≡ some ps
    → has_pred preds id t ≡ contains ps id
unfolding has_pred
has_pred-eq preds id t e = rw (e, has_pred) refl

no_pred_of-eq :
    (preds preds' : List (List ℕ))
    → get_elem? preds' 0 ≡ get_elem? preds 0
    → no_pred_of preds 0 ≡ true
    → no_pred_of preds' 0 ≡ true
no_pred_of-eq preds preds' e h = rw (e, no_pred_of) h

abbrev pub AllPred : List (List ℕ) → ℕ → List ℕ → Type 0
AllPred preds id [] = Unit
AllPred preds id (t ∷ ts) = (has_pred preds id t ≡ true) × AllPred preds id ts

pub AllPred-keeps :
    (preds preds' : List (List ℕ)) (id : ℕ) (ts : List ℕ)
    → ((i t : ℕ) → has_pred preds i t ≡ true → has_pred preds' i t ≡ true)
    → AllPred preds id ts
    → AllPred preds' id ts
AllPred-keeps preds preds' id [] k h = tt
AllPred-keeps preds preds' id (t ∷ ts) k h = (k id t h.0, AllPred-keeps preds preds' id ts k h.1)

module _ {F : Type 0} where
  -- As long as the blocks, with only right entries, and none at the entry block.
  pub record Filling (blocks : List (BasicBlock F)) (preds : List (List ℕ)) : Type 0 where
    pub as_long : length preds ≡ length blocks
    pub entry_free : no_pred_of preds 0 ≡ true
    pub right :
        (b p : ℕ) (ps : List ℕ)
        → get_elem? preds b ≡ some ps
        → contains ps p ≡ true
        → has_successor blocks b p ≡ true

  -- What some steps with the block `id` do, its successors `succs`.
  pub record Fills (blocks : List (BasicBlock F)) (preds : List (List ℕ)) (r : Run (List (List ℕ)))
      : Type 0 where
    pub after : List (List ℕ)
    pub runs : r ≡ done after
    pub filling : Filling blocks after
    pub keeps : (i t : ℕ) → has_pred preds i t ≡ true → has_pred after i t ≡ true

  -- The list with one more entry.
  module _ (blocks : List (BasicBlock F)) (id succ : ℕ) (preds : List (List ℕ)) (ps : List ℕ)
      (found : get_elem? preds succ ≡ some ps) where
    abbrev filled : List (List ℕ)
    filled = set preds succ (ps ++ id ∷ [])

    filled-found : get_elem? filled succ ≡ some (ps ++ id ∷ [])
    filled-found = get_elem?-set_self preds succ (ps ++ id ∷ []) (get_elem?-lt preds succ found)

    filled-Filling :
        Filling blocks preds
        → 0 < succ
        → has_successor blocks succ id ≡ true
        → Filling blocks filled
    filled-Filling f pos is_succ = record {
      as_long = length-set preds succ (ps ++ id ∷ []) ∙ f.as_long;
      entry_free =
          no_pred_of-eq preds filled
            (get_elem?-set_ne preds succ 0 (ps ++ id ∷ []) (λ e. omega (arith, e, pos)))
            f.entry_free;
      right = λ b p qs e c. elim (eq_or_ne succ b) [
        | inl is ↦
            let same : ps ++ id ∷ [] ≡ qs =
              some_inj (sym filled-found ∙ subst (λ z. get_elem? filled z ≡ some qs) (sym is) e) in
            subst (λ z. has_successor blocks z p ≡ true) is
              (elim (contains-append_cases ps id p
                (subst (λ z. contains z p ≡ true) (sym same) c)) [
                  | inl old ↦ f.right succ p ps found old
                  | inr at ↦ subst (λ z. has_successor blocks succ z ≡ true) at is_succ
                ])
        | inr n ↦ f.right b p qs (sym (get_elem?-set_ne preds succ b (ps ++ id ∷ []) n) ∙ e) c
      ];
    }

    filled-keeps : (i t : ℕ) → has_pred preds i t ≡ true → has_pred filled i t ≡ true
    unfolding has_pred
    filled-keeps i t h = elim (eq_or_ne succ t) [
      | inl is ↦
          subst (λ z. has_pred filled i z ≡ true) is
            (has_pred-eq filled i succ filled-found
              ∙ contains-append_left ps id i (
                  sym (has_pred-eq preds i succ found)
                  ∙ subst (λ z. has_pred preds i z ≡ true) (sym is) h))
      | inr n ↦ rw (get_elem?-set_ne preds succ t (ps ++ id ∷ []) n, has_pred) h
    ]

  add_pred-Fills :
      (blocks : List (BasicBlock F)) (id succ : ℕ) (preds : List (List ℕ))
      → Filling blocks preds
      → 0 < succ
      → succ < length blocks
      → has_successor blocks succ id ≡ true
      → (s : Fills blocks preds (add_pred id preds succ)) × (has_pred s.after id succ ≡ true)
  unfolding add_pred
  add_pred-Fills blocks id succ preds f pos lt is_succ =
      let (ps, found) = get_elem?-some preds succ (omega (arith, lt, f.as_long)) in
      elim (Bool-cases (contains ps id)) [
        | inl there ↦ (
          record { after = preds; runs = rw (found, there) refl; filling = f; keeps = λ i t h. h },
          has_pred-eq preds id succ found ∙ there,
        )
        | inr new ↦ (
          record {
            after = set preds succ (ps ++ id ∷ []);
            runs = rw (found, new) refl;
            filling = filled-Filling blocks id succ preds ps found f pos is_succ;
            keeps = filled-keeps blocks id succ preds ps found;
          },
          has_pred-eq (set preds succ (ps ++ id ∷ [])) id succ
                (filled-found blocks id succ preds ps found)
              ∙ contains-append_self ps id,
        )
      ]

  -- Every one of the successors is a block, not the entry, and one of `id`'s.
  abbrev pub AllSucc : List (BasicBlock F) → ℕ → List ℕ → Type 0
  AllSucc blocks id [] = Unit
  AllSucc blocks id (t ∷ ts) =
      ((0 < t) × (t < length blocks)) × ((has_successor blocks t id ≡ true) × AllSucc blocks id ts)

  add_preds-Fills :
      (blocks : List (BasicBlock F)) (id : ℕ) (succs : List ℕ) (preds : List (List ℕ))
      → Filling blocks preds
      → AllSucc blocks id succs
      → (s : Fills blocks preds (add_preds id preds succs)) × AllPred s.after id succs
  unfolding add_preds
  add_preds-Fills blocks id [] preds f h =
      (record { after = preds; runs = refl; filling = f; keeps = λ i t h. h }, tt)
  add_preds-Fills blocks id (t ∷ ts) preds f h =
      let (one, has) = add_pred-Fills blocks id t preds f h.0.0 h.0.1 h.1.0 in
      let (rest, all_has) = add_preds-Fills blocks id ts one.after one.filling h.1.1 in
      (
        record {
          after = rest.after;
          runs = rw one.runs rest.runs;
          filling = rest.filling;
          keeps = λ i t h. rest.keeps i t (one.keeps i t h);
        },
        (rest.keeps id t has, all_has),
      )

  abbrev pub BlocksSucc : List (BasicBlock F) → List (BasicBlock F) → Type 0
  BlocksSucc blocks [] = Unit
  BlocksSucc blocks (block ∷ rest) =
      AllSucc blocks block.id (block_successors block.terminator) × BlocksSucc blocks rest

  abbrev pub BlocksPred : List (List ℕ) → List (BasicBlock F) → Type 0
  BlocksPred preds [] = Unit
  BlocksPred preds (block ∷ rest) =
      AllPred preds block.id (block_successors block.terminator) × BlocksPred preds rest

  pub preds_of-Fills :
      (blocks rest : List (BasicBlock F)) (preds : List (List ℕ))
      → Filling blocks preds
      → BlocksSucc blocks rest
      → (s : Fills blocks preds (preds_of preds rest)) × BlocksPred s.after rest
  unfolding preds_of
  preds_of-Fills blocks [] preds f h =
      (record { after = preds; runs = refl; filling = f; keeps = λ i t h. h }, tt)
  preds_of-Fills blocks (block ∷ rest) preds f h =
      let succs = block_successors block.terminator in
      let (one, has) = add_preds-Fills blocks block.id succs preds f h.0 in
      let (others, all_has) = preds_of-Fills blocks rest one.after one.filling h.1 in
      (
        record {
          after = others.after;
          runs = rw one.runs others.runs;
          filling = others.filling;
          keeps = λ i t h. others.keeps i t (one.keeps i t h);
        },
        (AllPred-keeps one.after others.after block.id succs others.keeps has, all_has),
      )
