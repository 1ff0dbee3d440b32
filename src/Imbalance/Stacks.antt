-- ===== src/Imbalance/Stacks.antt =====
-- The stacks are the maximal runs of imbalances at consecutive levels that are long enough.
use deltaengine.Prelude.{
  ℕ, ◌+◌, List, [], ◌∷◌, ◌++◌, if◌then◌else◌, leb, ◌==◌, nat_eq, nat_eqb_iff, length, All, ◌≡◌, ◌≢◌,
  refl, ap, ◌∙◌, inl, inr, Bool-cases, arith,
}
use mathlib.Core.List.{append-nil}
use deltaengine.Imbalance.{
  Direction, Imbalance, StackedImbalance, maybe_emit, stacks_from, find_stacked,
}

-- A run that is not empty: its first item and the others.
abbrev pub Run : Type 0
Run = Imbalance × List Imbalance

-- The items behind `q` that continue its run, and the runs that come after it.
abbrev rest_of_run : Imbalance → List Imbalance → List Imbalance
rest_of_run q [] = []
rest_of_run q (r ∷ rs) =
    let rest = rest_of_run r rs in if r.index == q.index + 1 then r ∷ rest else []

abbrev later_runs : Imbalance → List Imbalance → List Run
later_runs q [] = []
later_runs q (r ∷ rs) =
    let later = later_runs r rs in
    if r.index == q.index + 1 then later else (r, rest_of_run r rs) ∷ later

abbrev pub runs : List Imbalance → List Run
runs [] = []
runs (q ∷ qs) = (q, rest_of_run q qs) ∷ later_runs q qs

abbrev pub joined : List Run → List Imbalance
joined [] = []
joined ((q, qs) ∷ rs) = q ∷ qs ++ joined rs

-- The items follow `q` level by level.
abbrev pub Follow : Imbalance → List Imbalance → Type 0
Follow q [] = Unit
Follow q (r ∷ rs) = (r.index ≡ q.index + 1) × Follow r rs

abbrev pub end_of : Imbalance → List Imbalance → Imbalance
end_of q [] = q
end_of q (r ∷ rs) = end_of r rs

-- No run continues the one before it, which ends with `e`.
abbrev pub AreApart : Imbalance → List Run → Type 0
AreApart e [] = Unit
AreApart e ((q, qs) ∷ rs) = (q.index ≢ e.index + 1) × AreApart (end_of q qs) rs

abbrev pub AreMaximal : List Run → Type 0
AreMaximal [] = Unit
AreMaximal ((q, qs) ∷ rs) = AreApart (end_of q qs) rs

-- The stack of a run, from the price of its first item to that of its last one.
abbrev pub stack_of : Direction → Imbalance → List Imbalance → StackedImbalance
stack_of direction q qs = record {
  start_price = q.price;
  end_price = (end_of q qs).price;
  count = 1 + length qs;
  direction = direction;
}

-- The stacks of some runs: of the runs with at least `stack_count` items.
abbrev pub stacks_of : ℕ → Direction → List Run → List StackedImbalance
stacks_of n direction [] = []
stacks_of n direction ((q, qs) ∷ rs) =
    let later = stacks_of n direction rs in
    if leb n (1 + length qs) then stack_of direction q qs ∷ later else later

maybe_emit-stacks :
    (n : ℕ) (direction : Direction) (q : Imbalance) (qs : List Imbalance) (rs : List Run)
    → maybe_emit n direction q (end_of q qs) (1 + length qs) ++ stacks_of n direction rs
      ≡ stacks_of n direction ((q, qs) ∷ rs)
unfolding maybe_emit
maybe_emit-stacks n direction q qs rs = elim (Bool-cases (leb n (1 + length qs))) [
  | inl e ↦ rw e refl
  | inr e ↦ rw e refl
]

-- What the code emits for some runs, in turn.
abbrev all_of : ℕ → Direction → List Run → List StackedImbalance
all_of n direction [] = []
all_of n direction ((q, qs) ∷ rs) =
    maybe_emit n direction q (end_of q qs) (1 + length qs) ++ all_of n direction rs

all_of-stacks :
    (n : ℕ) (direction : Direction) (rs : List Run)
    → all_of n direction rs ≡ stacks_of n direction rs
all_of-stacks n direction [] = refl
all_of-stacks n direction ((q, qs) ∷ rs) =
    ap (λ ss. maybe_emit n direction q (end_of q qs) (1 + length qs) ++ ss)
      (all_of-stacks n direction rs)
    ∙ maybe_emit-stacks n direction q qs rs

stacks_from-runs :
    (n : ℕ) (direction : Direction) (first last : Imbalance) (count : ℕ) (qs : List Imbalance)
    → stacks_from n direction first last count qs
      ≡ maybe_emit n direction first
          (end_of last (rest_of_run last qs))
          (count + length (rest_of_run last qs))
        ++ all_of n direction (later_runs last qs)
unfolding stacks_from
stacks_from-runs n direction first last count [] =
    let same : count + 0 ≡ count = omega arith in
    rw (same, append-nil (maybe_emit n direction first last count)) refl
stacks_from-runs n direction first last count (q ∷ qs) =
    elim (Bool-cases (q.index == last.index + 1)) [
      | inl e ↦
          let longer : count + 1 + length (rest_of_run q qs)
              ≡ count + length (q ∷ rest_of_run q qs) =
            omega arith in
          rw (e, ← longer) (stacks_from-runs n direction first q (count + 1) qs)
      | inr e ↦
          let short : count + length (rest_of_run last []) ≡ count = omega arith in
          rw (e, short)
            (ap (λ ss. maybe_emit n direction first last count ++ ss)
              (stacks_from-runs n direction q q 1 qs))
    ]

rest_of_run-joined :
    (q : Imbalance) (qs : List Imbalance) → rest_of_run q qs ++ joined (later_runs q qs) ≡ qs
rest_of_run-joined q [] = refl
rest_of_run-joined q (r ∷ rs) = elim (Bool-cases (r.index == q.index + 1)) [
  | inl e ↦ rw e (ap (λ xs. r ∷ xs) (rest_of_run-joined r rs))
  | inr e ↦ rw e (ap (λ xs. r ∷ xs) (rest_of_run-joined r rs))
]

rest_of_run-Follow : (q : Imbalance) (qs : List Imbalance) → Follow q (rest_of_run q qs)
rest_of_run-Follow q [] = tt
rest_of_run-Follow q (r ∷ rs) = elim (Bool-cases (r.index == q.index + 1)) [
  | inl e ↦ rw e ((nat_eqb_iff r.index (q.index + 1)).0 e, rest_of_run-Follow r rs)
  | inr e ↦ rw e tt
]

later_runs-Follow :
    (q : Imbalance) (qs : List Imbalance) → All (λ r. Follow r.0 r.1) (later_runs q qs)
later_runs-Follow q [] = tt
later_runs-Follow q (r ∷ rs) = elim (Bool-cases (r.index == q.index + 1)) [
  | inl e ↦ rw e (later_runs-Follow r rs)
  | inr e ↦ rw e (rest_of_run-Follow r rs, later_runs-Follow r rs)
]

later_runs-AreApart :
    (q : Imbalance) (qs : List Imbalance) → AreApart (end_of q (rest_of_run q qs)) (later_runs q qs)
later_runs-AreApart q [] = tt
later_runs-AreApart q (r ∷ rs) = elim (Bool-cases (r.index == q.index + 1)) [
  | inl e ↦ rw e (later_runs-AreApart r rs)
  | inr e ↦ rw e ((λ same. ground (arith, e, same)), later_runs-AreApart r rs)
]

-- `_find_stacked` finds exactly the maximal runs of consecutive levels that have at least
-- `stack_count` items: the imbalances split, in their order, into runs each of which goes on level
-- by level, with no run continuing the one before it, and the stacks are, in order, one for each run
-- of at least `stack_count` items: with its direction, its number of items, and the prices of its
-- first and of its last item.
pub find_stacked-runs :
    (n : ℕ) (direction : Direction) (qs : List Imbalance)
    → (joined (runs qs) ≡ qs)
      × All (λ r. Follow r.0 r.1) (runs qs)
      × AreMaximal (runs qs)
      × (find_stacked n direction qs ≡ stacks_of n direction (runs qs))
unfolding find_stacked
find_stacked-runs n direction [] = (refl, tt, tt, refl)
find_stacked-runs n direction (q ∷ qs) = (
  ap (λ xs. q ∷ xs) (rest_of_run-joined q qs),
  (rest_of_run-Follow q qs, later_runs-Follow q qs),
  later_runs-AreApart q qs,
  stacks_from-runs n direction q q 1 qs ∙ all_of-stacks n direction (runs (q ∷ qs)),
)
