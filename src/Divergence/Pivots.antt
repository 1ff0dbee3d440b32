-- ===== src/Divergence/Pivots.antt =====
-- What an event about a pivot means, and that the check of a pivot keeps to it.
use deltaengine.Prelude.{
  ℕ, ◌+◌, Option, none, some, true, Decimal, ℤ, pos, ◌-ℤ◌, ◌+ℤ◌, ◌≤ℤ◌, ◌<ℤ◌, ltb_ℤ, ◌≡◌, refl, inl,
  inr, Bool-cases, Option-cases, arith, int_laws,
}
use deltaengine.Cvd.{Candle}
use deltaengine.Divergence.{
  DivergenceDirection, bullish, bearish, DivergenceEvent, CvdDivergenceDetector, price_of, abs,
  compare_pivots, evaluate, is_swing_low, is_swing_high, check_low, check_high, check_pivots,
}

-- The price made a lower low while the CVD made a higher one, or the price a higher high while the
-- CVD made a lower one.
abbrev pub Diverges : DivergenceDirection → Decimal → Decimal → Decimal → Decimal → Type 0
Diverges bullish price previous cvd previous_cvd = (price <ℤ previous) × (previous_cvd <ℤ cvd)
Diverges bearish price previous cvd previous_cvd = (previous <ℤ price) × (cvd <ℤ previous_cvd)

-- An event of a detector with these two settings.
pub record IsEvent (move : Decimal) (distance : ℕ) (e : DivergenceEvent) : Type 0 where
  pub diverges :
      Diverges e.direction e.pivot_price e.previous_pivot_price e.pivot_cvd e.previous_pivot_cvd
  pub price_change : e.previous_pivot_price +ℤ e.price_change ≡ e.pivot_price
  pub cvd_change : e.previous_pivot_cvd +ℤ e.cvd_change ≡ e.pivot_cvd
  pub moved : move ≤ℤ abs e.price_change
  pub apart : pos distance ≤ℤ e.bars_between

-- The candle is a swing pivot between its neighbours.
abbrev pub IsSwing : DivergenceDirection → Candle → Candle → Candle → Type 0
IsSwing bullish left pivot right = (pivot.low <ℤ left.low) × (pivot.low ≤ℤ right.low)
IsSwing bearish left pivot right = (left.high <ℤ pivot.high) × (right.high ≤ℤ pivot.high)

-- The event is about this pivot.
pub record IsAbout (left pivot right : Candle) (e : DivergenceEvent) : Type 0 where
  pub swing : IsSwing e.direction left pivot right
  pub time : e.pivot_time ≡ pivot.bar_time
  pub price : e.pivot_price ≡ price_of e.direction pivot
  pub cvd : e.pivot_cvd ≡ pivot.cvd

-- What holds of an event, if there is one.
abbrev pub OfEvent : (DivergenceEvent → Type 0) → Option DivergenceEvent → Type 0
OfEvent P none = Unit
OfEvent P (some e) = P e

pub sub_add : (a b : ℤ) → b +ℤ (a -ℤ b) ≡ a
sub_add a b = omega int_laws

sub_negative : (a b : ℤ) → ltb_ℤ (a -ℤ b) (pos 0) ≡ true → a <ℤ b
sub_negative a b h = grind (int_laws, h)

sub_positive : (a b : ℤ) → ltb_ℤ (pos 0) (a -ℤ b) ≡ true → b <ℤ a
sub_positive a b h = grind (int_laws, h)

compare_pivots-IsEvent :
    (d : CvdDivergenceDetector) (direction : DivergenceDirection) (left pivot right : Candle)
    (index : ℤ) (previous : Candle) (previous_index : ℤ)
    → IsSwing direction left pivot right
    → OfEvent
        (λ e. IsEvent d.min_price_move d.min_bar_distance e × IsAbout left pivot right e)
        (compare_pivots d direction pivot index previous previous_index).1
unfolding compare_pivots
compare_pivots-IsEvent d bullish left pivot right index previous previous_index s = ground (
  arith,
  s,
  sub_add pivot.low previous.low,
  sub_add pivot.cvd previous.cvd,
  sub_negative pivot.low previous.low,
  sub_positive pivot.cvd previous.cvd,
)
compare_pivots-IsEvent d bearish left pivot right index previous previous_index s = ground (
  arith,
  s,
  sub_add pivot.high previous.high,
  sub_add pivot.cvd previous.cvd,
  sub_positive pivot.high previous.high,
  sub_negative pivot.cvd previous.cvd,
)

-- An event of a detector with these settings, about this pivot.
abbrev IsSound : Decimal → ℕ → Candle → Candle → Candle → DivergenceEvent → Type 0
IsSound move distance left pivot right e = IsEvent move distance e × IsAbout left pivot right e

evaluate-IsSound :
    (d : CvdDivergenceDetector) (direction : DivergenceDirection) (left pivot right : Candle)
    (index : ℤ) (previous : Option (Candle × ℤ))
    → IsSwing direction left pivot right
    → OfEvent
        (IsSound d.min_price_move d.min_bar_distance left pivot right)
        (evaluate d direction pivot index previous).1
unfolding evaluate
evaluate-IsSound d direction left pivot right index none s = tt
evaluate-IsSound d direction left pivot right index (some (previous, i)) s =
    compare_pivots-IsEvent d direction left pivot right index previous i s

-- The settings and the candles stay as they are.
abbrev pub Keeps : CvdDivergenceDetector → CvdDivergenceDetector → Type 0
Keeps d d' =
    (d'.min_price_move ≡ d.min_price_move)
    × (d'.min_bar_distance ≡ d.min_bar_distance)
    × (d'.candles ≡ d.candles)
    × (d'.bar_index ≡ d.bar_index)
    × (d'.candles_in ≡ d.candles_in)
    × (d'.rejected_out_of_order ≡ d.rejected_out_of_order)
    × (d'.rejected_symbol_mismatch ≡ d.rejected_symbol_mismatch)
    × (d'.rejected_timeframe_mismatch ≡ d.rejected_timeframe_mismatch)

evaluate-Keeps :
    (d : CvdDivergenceDetector) (direction : DivergenceDirection) (pivot : Candle) (index : ℤ)
    (previous : Option (Candle × ℤ))
    → Keeps d (evaluate d direction pivot index previous).0
unfolding evaluate compare_pivots
evaluate-Keeps d direction pivot index none = (refl, refl, refl, refl, refl, refl, refl, refl)
evaluate-Keeps d direction pivot index (some (previous, i)) = ground arith

check_low-Keeps :
    (d : CvdDivergenceDetector) (left pivot right : Candle) (index : ℤ)
    → Keeps d (check_low d left pivot right index).0
unfolding check_low
check_low-Keeps d left pivot right index =
    let k =
      evaluate-Keeps (record d { pivots_low = d.pivots_low + 1 }) bullish pivot index d.last_low in
    ground (arith, k)

check_high-Keeps :
    (d : CvdDivergenceDetector) (left pivot right : Candle) (index : ℤ)
    → Keeps d (check_high d left pivot right index).0
unfolding check_high
check_high-Keeps d left pivot right index =
    let k =
      evaluate-Keeps (record d { pivots_high = d.pivots_high + 1 }) bearish pivot index
        d.last_high in
    ground (arith, k)

check_low-IsSound :
    (d : CvdDivergenceDetector) (left pivot right : Candle) (index : ℤ)
    → OfEvent
        (IsSound d.min_price_move d.min_bar_distance left pivot right)
        (check_low d left pivot right index).1
unfolding check_low
check_low-IsSound d left pivot right index = elim (Bool-cases (is_swing_low left pivot right)) [
  | inl s ↦ rw s (
      evaluate-IsSound (record d { pivots_low = d.pivots_low + 1 }) bullish left pivot right index
        d.last_low (ground arith, ground arith))
  | inr s ↦ rw s tt
]

check_high-IsSound :
    (d : CvdDivergenceDetector) (left pivot right : Candle) (index : ℤ)
    → OfEvent
        (IsSound d.min_price_move d.min_bar_distance left pivot right)
        (check_high d left pivot right index).1
unfolding check_high
check_high-IsSound d left pivot right index = elim (Bool-cases (is_swing_high left pivot right)) [
  | inl s ↦ rw s (
      evaluate-IsSound (record d { pivots_high = d.pivots_high + 1 }) bearish left pivot right index
        d.last_high (ground arith, ground arith))
  | inr s ↦ rw s tt
]

settle :
    (move move' : Decimal) (distance distance' : ℕ) (left pivot right : Candle)
    (o : Option DivergenceEvent)
    → move' ≡ move
    → distance' ≡ distance
    → OfEvent (IsSound move' distance' left pivot right) o
    → OfEvent (IsSound move distance left pivot right) o
settle move move' distance distance' left pivot right none m n h = tt
settle move move' distance distance' left pivot right (some e) m n h = rw (← m, ← n) h

pub check_pivots-IsSound :
    (d : CvdDivergenceDetector) (left pivot right : Candle) (index : ℤ)
    → OfEvent
        (IsSound d.min_price_move d.min_bar_distance left pivot right)
        (check_pivots d left pivot right index).1
unfolding check_pivots
check_pivots-IsSound d left pivot right index =
    let low = check_low-IsSound d left pivot right index in
    let kept = check_low-Keeps d left pivot right index in
    let d' = (check_low d left pivot right index).0 in
    let high = check_high-IsSound d' left pivot right index in
    elim (Option-cases (check_low d left pivot right index).1) [
      | inl n ↦
          rw (check_pivots, OfEvent, n)
            (settle _ _ _ _ left pivot right (check_high d' left pivot right index).1 kept.0 kept.1
              high)
      | inr (e, s) ↦ rw (check_pivots, OfEvent, s) (rw (OfEvent, s) at low)
    ]

pub check_pivots-Keeps :
    (d : CvdDivergenceDetector) (left pivot right : Candle) (index : ℤ)
    → Keeps d (check_pivots d left pivot right index).0
unfolding check_pivots
check_pivots-Keeps d left pivot right index =
    let low = check_low-Keeps d left pivot right index in
    let d' = (check_low d left pivot right index).0 in
    let high = check_high-Keeps d' left pivot right index in
    elim (Option-cases (check_low d left pivot right index).1) [
      | inl n ↦ rw (check_pivots, n) (ground (arith, low, high))
      | inr (e, s) ↦ rw (check_pivots, s) low
    ]
