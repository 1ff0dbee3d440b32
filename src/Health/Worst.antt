-- ===== src/Health/Worst.antt =====
-- The state of a report is the worst of its checks.
use deltaengine.Prelude.{
  ◌≤◌, List, [], ◌∷◌, ltb, All, ◌≡◌, ◌⊎◌, refl, ◌∙◌, inl, inr, Bool-cases, arith,
}
use deltaengine.Health.{
  Level, green, yellow, red, rank, HealthSnapshot, HealthMonitor, worse, levels_of, worst_from,
  worst_of, evaluate,
}

abbrev pub IsOneOf : Level → List Level → Type 0
IsOneOf l [] = ⊥
IsOneOf l (k ∷ ks) = (l ≡ k) ⊎ IsOneOf l ks

abbrev pub IsWorst : Level → List Level → Type 0
IsWorst l ls = All (λ k. rank k ≤ rank l) ls × IsOneOf l ls

worse-le : (a b : Level) → (rank a ≤ rank (worse a b)) × (rank b ≤ rank (worse a b))
worse-le a b = ground arith

worst_from-le :
    (a : Level) (ls : List Level)
    → (rank a ≤ rank (worst_from a ls)) × All (λ k. rank k ≤ rank (worst_from a ls)) ls
unfolding worst_from
worst_from-le a [] = (omega arith, tt)
worst_from-le a (l ∷ ls) =
    let (above, all) = worst_from-le (worse a l) ls in
    let (left, right) = worse-le a l in (omega arith, (omega arith, all))

worse_either : (a b : Level) → (worse a b ≡ a) ⊎ (worse a b ≡ b)
worse_either a b = elim (Bool-cases (ltb (rank a) (rank b))) [
  | inl e ↦ inr (rw e)
  | inr e ↦ inl (rw e)
]

worst_from-IsOneOf : (a : Level) (ls : List Level) → IsOneOf (worst_from a ls) (a ∷ ls)
unfolding worst_from
worst_from-IsOneOf a [] = inl refl
worst_from-IsOneOf a (l ∷ ls) = go (worst_from-IsOneOf (worse a l) ls) (worse_either a l)
  where
    go :
        {w : Level}
        → IsOneOf w (worse a l ∷ ls)
        → (worse a l ≡ a) ⊎ (worse a l ≡ l)
        → IsOneOf w (a ∷ l ∷ ls)
    go (inl e) (inl f) = inl (e ∙ f)
    go (inl e) (inr f) = inr (inl (e ∙ f))
    go (inr h) f = inr (inr h)

-- Beginning with GREEN changes nothing, since a list that has a check has a level at least as bad.
from_green : (l : Level) (ls : List Level) → IsOneOf (worst_from green (l ∷ ls)) (l ∷ ls)
unfolding worst_from
from_green green ls = worst_from-IsOneOf green ls
from_green yellow ls = worst_from-IsOneOf yellow ls
from_green red ls = worst_from-IsOneOf red ls

-- Whatever the monitor has seen, the state that it reports is the worst level of its six checks: no
-- check is worse, and one of them has it.
pub evaluate-IsWorst :
    (m : HealthMonitor) (snap : HealthSnapshot)
    → IsWorst (evaluate m snap).1.state (levels_of (evaluate m snap).1.checks)
unfolding evaluate worst_of
evaluate-IsWorst m snap = (
  (worst_from-le green (levels_of (evaluate m snap).1.checks)).1,
  from_green (evaluate m snap).1.checks.gaps.level (
      let c = (evaluate m snap).1.checks in
      c.reconnects.level ∷ c.pipeline.level ∷ c.bar_flow.level ∷ c.latency.level ∷ c.memory.level
      ∷ []),
)
