-- ===== src/Pipeline/Positive.antt =====
-- A closed bar has volume, so that the volume reference that the detectors divide by is positive.
use deltaengine.Prelude.{
  ℕ, ◌≤◌, List, [], ◌∷◌, map, Option, none, some, true, String, Decimal, pos, ◌+ℤ◌, ◌≤ℤ◌, ◌<ℤ◌, ltb,
  ◌==◌, int_eq, int_eqb_iff, nat_eq, length, lookup_or, push-All, All, sum_by, ◌≡◌, refl, inl, inr,
  Bool-cases, on_if, length-map, arith, int_laws,
}
use deltaengine.Trades.{Time}
use deltaengine.VolumeRef.{
  VolumeRefTracker, total_of, observe_bar, sum_volumes, sum_levels, current,
}
use deltaengine.VolumeRef.Average.{total_of_sum}
use deltaengine.Absorption.Totality.{IsPositive}
use deltaengine.Footprint.{
  FootprintTrade, FootprintBar, PriceLevel, BarAccumulator, new_bar, add, level_of, sorted, union,
  to_levels, to_bar, roll_bar,
}
use deltaengine.Footprint.Levels.{volume_at, IsTable, to_levels_volumes, add-IsTable}
use deltaengine.Footprint.Volumes.{add_volumes}
use deltaengine.Pipeline.{buy_total, sell_total, per_level_volumes}

-- A bar whose volumes are not negative.
pub record IsUsable (b : BarAccumulator) : Type 0 where
  pub table : IsTable b
  pub buys : (p : Decimal) → pos 0 ≤ℤ lookup_or p (pos 0) b.buys
  pub sells : (p : Decimal) → pos 0 ≤ℤ lookup_or p (pos 0) b.sells

-- It has volume at some price.
pub record IsFilled (b : BarAccumulator) : Type 0 where
  pub usable : IsUsable b
  pub place : Decimal
  pub filled : pos 0 <ℤ lookup_or place (pos 0) b.buys +ℤ lookup_or place (pos 0) b.sells

abbrev pub IsOpenFilled : Option BarAccumulator → Type 0
IsOpenFilled none = Unit
IsOpenFilled (some b) = IsFilled b

add-IsFilled :
    (b : BarAccumulator) (t : FootprintTrade)
    → pos 0 <ℤ t.quantity
    → IsUsable b
    → IsFilled (add b t.price t.quantity t.side)
add-IsFilled b t q u =
    let same : (t.price == t.price) ≡ true = (int_eqb_iff t.price t.price).1 refl in
    record {
      usable = record {
        table = add-IsTable b t.price t.quantity t.side u.table;
        buys = λ p. (let v = add_volumes b t p in let n = u.buys p in grind (int_laws, v, n, q));
        sells = λ p. (let v = add_volumes b t p in let n = u.sells p in grind (int_laws, v, n, q));
      };
      place = t.price;
      filled =
          (let v = add_volumes b t t.price in
            let n = u.buys t.price in
            let m = u.sells t.price in grind (int_laws, v, n, m, q, same));
    }

new_bar-IsUsable : (start : Time) → IsUsable (new_bar start)
unfolding new_bar
new_bar-IsUsable start = record {
  table = (tt, tt);
  buys = λ p. omega int_laws;
  sells = λ p. omega int_laws;
}

roll_bar-IsUsable :
    (b : Option BarAccumulator) (start : Time) → IsOpenFilled b → IsUsable (roll_bar b start).0
unfolding roll_bar
roll_bar-IsUsable none start h = new_bar-IsUsable start
roll_bar-IsUsable (some b) start h =
    on_if (λ (r : BarAccumulator × Option BarAccumulator). IsUsable r.0) (ltb b.bar_time start) _ _
      (λ _. new_bar-IsUsable start) (λ _. h.usable)

pub roll_bar-IsFilled :
    (b : Option BarAccumulator) (start : Time) (t : FootprintTrade)
    → pos 0 <ℤ t.quantity
    → IsOpenFilled b
    → IsFilled (add (roll_bar b start).0 t.price t.quantity t.side)
roll_bar-IsFilled b start t q h =
    add-IsFilled (roll_bar b start).0 t q (roll_bar-IsUsable b start h)

abbrev AreNonnegative : List PriceLevel → Type 0
AreNonnegative levels = All (λ l. (pos 0 ≤ℤ l.buy_volume) × (pos 0 ≤ℤ l.sell_volume)) levels

levels-AreNonnegative :
    (b : BarAccumulator) (ps : List Decimal) → IsUsable b → AreNonnegative (map (level_of b) ps)
levels-AreNonnegative b [] u = tt
levels-AreNonnegative b (p ∷ ps) u = ((u.buys p, u.sells p), levels-AreNonnegative b ps u)

-- What is listed at one price is no more than the whole.
volume_at_most :
    (p : Decimal) (levels : List PriceLevel)
    → AreNonnegative levels
    → volume_at (λ l. l.buy_volume) p levels +ℤ volume_at (λ l. l.sell_volume) p levels
      ≤ℤ sum_by (λ l. l.buy_volume) levels +ℤ sum_by (λ l. l.sell_volume) levels
volume_at_most p [] h = omega int_laws
volume_at_most p (l ∷ levels) h =
    let rest = volume_at_most p levels h.1 in
    let here = h.0 in
    elim (Bool-cases (l.price == p)) [
      | inl e ↦ rw e (omega (int_laws, rest, here))
      | inr e ↦ rw e (omega (int_laws, rest, here))
    ]

pub to_bar_volume :
    (b : BarAccumulator) (s tf : String)
    → IsFilled b
    → pos 0 <ℤ buy_total (to_bar b s tf) +ℤ sell_total (to_bar b s tf)
unfolding to_bar
to_bar_volume b s tf h =
    let listed = to_levels_volumes b h.place h.usable.table in
    let most : volume_at (λ l. l.buy_volume) h.place (to_levels b)
          +ℤ volume_at (λ l. l.sell_volume) h.place (to_levels b)
        ≤ℤ buy_total (to_bar b s tf) +ℤ sell_total (to_bar b s tf) =
      (unfold to_levels in
        volume_at_most h.place (to_levels b) (
          levels-AreNonnegative b (sorted (union (map (λ e. e.0) b.buys) (map (λ e. e.0) b.sells)))
            h.usable)) in
    let filled = h.filled in grind (int_laws, listed, most, filled)

-- The bars of the window have levels, and volume.
pub record HasVolume (e : Decimal × ℕ) : Type 0 where
  pub volume : pos 0 <ℤ e.0
  pub levels : 1 ≤ e.1

abbrev pub ArePositive : VolumeRefTracker → Type 0
ArePositive r = All HasVolume r.window

window_positive :
    (w : List (Decimal × ℕ))
    → All HasVolume w
    → (pos 0 ≤ℤ sum_volumes w) × (1 ≤ length w → (pos 0 <ℤ sum_volumes w) × (1 ≤ sum_levels w))
unfolding sum_volumes sum_levels
window_positive [] h = (omega int_laws, λ k. absurd (omega arith))
window_positive (e ∷ w) h =
    let rest = (window_positive w h.1).0 in
    let v = h.0.volume in
    let n = h.0.levels in
    (omega (int_laws, rest, v), λ k. (omega (int_laws, rest, v), omega (arith, n)))

pub current-IsPositive : (r : VolumeRefTracker) → ArePositive r → IsPositive (current r)
unfolding current
current-IsPositive r h =
    on_if IsPositive (length r.window == 0) _ _ (λ _. tt)
      (λ full.
        let k = (window_positive r.window h).1 (ground arith) in
        on_if IsPositive (sum_levels r.window == 0) _ _ (λ e. absurd (ground (arith, k.1)))
          (λ _. k.0))

sum_by-per_level :
    (levels : List PriceLevel)
    → sum_by (λ v. v) (map (λ l. l.buy_volume +ℤ l.sell_volume) levels)
      ≡ sum_by (λ l. l.buy_volume) levels +ℤ sum_by (λ l. l.sell_volume) levels
sum_by-per_level [] = omega int_laws
sum_by-per_level (l ∷ levels) = grind (int_laws, sum_by-per_level levels)

levels_of_volume :
    (levels : List PriceLevel)
    → pos 0 <ℤ sum_by (λ l. l.buy_volume) levels +ℤ sum_by (λ l. l.sell_volume) levels
    → 1 ≤ length levels
levels_of_volume [] h = absurd (omega (int_laws, h))
levels_of_volume (l ∷ levels) h = omega arith

pub observe_bar-ArePositive :
    (r : VolumeRefTracker) (bar : FootprintBar)
    → ArePositive r
    → pos 0 <ℤ buy_total bar +ℤ sell_total bar
    → ArePositive (observe_bar r (per_level_volumes bar))
unfolding observe_bar
observe_bar-ArePositive r bar h v =
    let (sum, count) = total_of_sum (per_level_volumes bar) (pos 0) 0 in
    let all = sum_by-per_level bar.levels in
    let some_level = levels_of_volume bar.levels v in
    let size = length-map (λ l. l.buy_volume +ℤ l.sell_volume) bar.levels in
    let entry : HasVolume (total_of (per_level_volumes bar) (pos 0) 0) = record {
      volume = grind (int_laws, sum, all, v);
      levels = omega (arith, count, some_level, size);
    } in
    push-All HasVolume r.bars r.window (total_of (per_level_volumes bar) (pos 0) 0) h entry
