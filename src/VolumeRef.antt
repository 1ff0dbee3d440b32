-- ===== src/VolumeRef.antt =====
-- The moving average of the volume of a level (src/orderflow/volume_ref.py), shared by the imbalance
-- and the absorption detector. A quotient of two numbers is kept as the pair of them.
pub mod Average
use deltaengine.Prelude.{
  ℕ, ◌+◌, List, [], ◌∷◌, Option, none, some, Decimal, ℤ, pos, ◌+ℤ◌, ltb, if◌then◌else◌, ◌==◌,
  nat_eq, length, push, Result, ok, raise, value_error,
}

-- What `current` returns: a volume over a number of levels that is not 0.
pub record Quotient : Type 0 where
  pub numerator : Decimal
  pub denominator : ℕ

pub record VolumeRefTracker : Type 0 where
  pub bars : ℕ
  pub observations : ℕ
  pub window : List (Decimal × ℕ)

-- `VolumeRefTracker.__init__`
unfoldable pub new_tracker : ℕ → Result VolumeRefTracker
new_tracker bars =
    if ltb bars 1
    then raise value_error
    else ok (record { bars = bars; observations = 0; window = [] })

-- The loop of `observe_bar`.
unfoldable pub total_of : List Decimal → Decimal → ℕ → Decimal × ℕ
total_of [] total count = (total, count)
total_of (v ∷ vs) total count = total_of vs (total +ℤ v) (count + 1)

unfoldable pub observe_bar : VolumeRefTracker → List Decimal → VolumeRefTracker
unfolding total_of
observe_bar r volumes = record r {
  window = push r.bars r.window (total_of volumes (pos 0) 0);
  observations = r.observations + 1;
}

-- The two sums of `current`.
unfoldable pub sum_volumes : List (Decimal × ℕ) → Decimal
sum_volumes [] = pos 0
sum_volumes ((s, c) ∷ w) = s +ℤ sum_volumes w

unfoldable pub sum_levels : List (Decimal × ℕ) → ℕ
sum_levels [] = 0
sum_levels ((s, c) ∷ w) = c + sum_levels w

unfoldable pub current : VolumeRefTracker → Option Quotient
unfolding sum_volumes sum_levels
current r =
    let levels = sum_levels r.window in
    if length r.window == 0
    then none
    else if levels == 0
    then some (record { numerator = pos 0; denominator = 1 })
    else some (record { numerator = sum_volumes r.window; denominator = levels })
