-- ===== src/Divergence/History.antt =====
-- The pivots that the detector remembers, as pivots of the candles that it has taken.
use deltaengine.Prelude.{
  ◌+◌, List, ◌∷◌, ◌++◌, Option, none, some, ◌&&◌, ℤ, pos, ◌-ℤ◌, ◌+ℤ◌, ltb_ℤ, leb_ℤ, if◌then◌else◌,
  length, ◌≡◌, refl, sym, ◌∙◌, subst, ◌⊎◌, inl, inr, Bool-cases, Option-cases, arith,
}
use deltaengine.Cvd.{Candle}
use deltaengine.Divergence.{
  DivergenceDirection, bullish, bearish, DivergenceEvent, CvdDivergenceDetector, price_of, abs,
  is_regular, compare_pivots, evaluate, is_swing_low, is_swing_high, check_low, check_high,
  check_pivots,
}
use deltaengine.Divergence.Pivots.{IsSwing, OfEvent, sub_add}

-- The candles taken are listed from the newest on. The latest swing low among them, with its
-- position from the first candle on.
unfoldable pub last_swing_low : List Candle → Option (Candle × ℤ)
last_swing_low (right ∷ pivot ∷ left ∷ older) =
    let before = last_swing_low (pivot ∷ left ∷ older) in
    if ltb_ℤ pivot.low left.low && leb_ℤ pivot.low right.low
    then some (pivot, pos (1 + length older))
    else before
last_swing_low _ = none

-- The candle is a swing high at this position.
abbrev pub IsHighAt : List Candle → Candle → ℤ → Type 0
IsHighAt taken p i =
    (newer : List Candle) × (right left : Candle) × (older : List Candle) × (taken
      ≡ newer ++ right ∷ p ∷ left ∷ older)
    × IsSwing bearish left p right
    × (i ≡ pos (1 + length older))

-- The pivot with which a later one is compared: the latest swing low, or a swing high.
abbrev pub IsPrevious : DivergenceDirection → List Candle → Candle → ℤ → Type 0
IsPrevious bullish taken p i = last_swing_low taken ≡ some (p, i)
IsPrevious bearish taken p i = IsHighAt taken p i

-- The event compares its pivot, at the position `j`, with this one at `i`.
pub record Compares (e : DivergenceEvent) (previous : Candle) (i j : ℤ) : Type 0 where
  pub time : e.previous_pivot_time ≡ previous.bar_time
  pub price : e.previous_pivot_price ≡ price_of e.direction previous
  pub cvd : e.previous_pivot_cvd ≡ previous.cvd
  pub distance : i +ℤ e.bars_between ≡ j

-- The previous pivot is one of the candles taken so far, and the distance is the one between the
-- positions of the two.
abbrev pub IsTraced : List Candle → ℤ → DivergenceEvent → Type 0
IsTraced taken j e =
    (previous : Candle) × (i : ℤ) × IsPrevious e.direction taken previous i
    × Compares e previous i j

compare_pivots-IsTraced :
    (d : CvdDivergenceDetector) (direction : DivergenceDirection) (pivot : Candle) (index : ℤ)
    (previous : Candle) (i : ℤ) (taken : List Candle)
    → IsPrevious direction taken previous i
    → OfEvent (IsTraced taken index) (compare_pivots d direction pivot index previous i).1
unfolding compare_pivots
compare_pivots-IsTraced d direction pivot index previous i taken h =
    let price_change = price_of direction pivot -ℤ price_of direction previous in
    elim (Bool-cases (is_regular direction price_change (pivot.cvd -ℤ previous.cvd))) [
      | inr r ↦ rw r tt
      | inl r ↦ elim (Bool-cases (ltb_ℤ (abs price_change) d.min_price_move)) [
        | inl m ↦ rw (r, m) tt
        | inr m ↦ elim (Bool-cases (ltb_ℤ (index -ℤ i) (pos d.min_bar_distance))) [
          | inl n ↦ rw (r, m, n) tt
          | inr n ↦
              rw (r, m, n)
                (
                  previous,
                  i,
                  h,
                  record { time = refl; price = refl; cvd = refl; distance = sub_add index i },
                )
        ]
      ]
    ]

evaluate-IsTraced :
    (d : CvdDivergenceDetector) (direction : DivergenceDirection) (pivot : Candle) (index : ℤ)
    (o : Option (Candle × ℤ)) (taken : List Candle)
    → ((p : Candle) (i : ℤ) → o ≡ some (p, i) → IsPrevious direction taken p i)
    → OfEvent (IsTraced taken index) (evaluate d direction pivot index o).1
unfolding evaluate
evaluate-IsTraced d direction pivot index none taken h = tt
evaluate-IsTraced d direction pivot index (some (p, i)) taken h =
    compare_pivots-IsTraced d direction pivot index p i taken (h p i refl)

evaluate_keeps :
    (d : CvdDivergenceDetector) (direction : DivergenceDirection) (pivot : Candle) (index : ℤ)
    (o : Option (Candle × ℤ))
    → ((evaluate d direction pivot index o).0.last_low ≡ d.last_low)
      × ((evaluate d direction pivot index o).0.last_high ≡ d.last_high)
unfolding evaluate compare_pivots
evaluate_keeps d direction pivot index none = (refl, refl)
evaluate_keeps d direction pivot index (some (previous, i)) = ground arith

check_low_pivots :
    (d : CvdDivergenceDetector) (left pivot right : Candle) (index : ℤ)
    → ((check_low d left pivot right index).0.last_low
        ≡ (if is_swing_low left pivot right then some (pivot, index) else d.last_low))
      × ((check_low d left pivot right index).0.last_high ≡ d.last_high)
unfolding check_low
check_low_pivots d left pivot right index =
    let k =
      evaluate_keeps (record d { pivots_low = d.pivots_low + 1 }) bullish pivot index d.last_low in
    ground (arith, k)

-- A swing high that is remembered is new, or was remembered before.
abbrev pub KeepsHigh :
    Option (Candle × ℤ) → Option (Candle × ℤ) → Candle → Candle → Candle → ℤ → Type 0
KeepsHigh old new left pivot right index =
    (new ≡ old) ⊎ (IsSwing bearish left pivot right × (new ≡ some (pivot, index)))

check_high_pivots :
    (d : CvdDivergenceDetector) (left pivot right : Candle) (index : ℤ)
    → ((check_high d left pivot right index).0.last_low ≡ d.last_low)
      × KeepsHigh d.last_high
          (check_high d left pivot right index).0.last_high
          left
          pivot
          right
          index
unfolding check_high
check_high_pivots d left pivot right index =
    let k =
      evaluate_keeps (record d { pivots_high = d.pivots_high + 1 }) bearish pivot index
        d.last_high in
    elim (Bool-cases (is_swing_high left pivot right)) [
      | inl s ↦ rw s (k.0, inr ((ground (arith, s), ground (arith, s)), refl))
      | inr s ↦ rw s (refl, inl refl)
    ]

pub check_pivots_pivots :
    (d : CvdDivergenceDetector) (left pivot right : Candle) (index : ℤ)
    → ((check_pivots d left pivot right index).0.last_low
        ≡ (if is_swing_low left pivot right then some (pivot, index) else d.last_low))
      × KeepsHigh d.last_high
          (check_pivots d left pivot right index).0.last_high
          left
          pivot
          right
          index
unfolding check_pivots
check_pivots_pivots d left pivot right index =
    let low = check_low_pivots d left pivot right index in
    let d' = (check_low d left pivot right index).0 in
    let high = check_high_pivots d' left pivot right index in
    elim (Option-cases (check_low d left pivot right index).1) [
      | inl n ↦
          rw (check_pivots, n)
            (
              high.0 ∙ low.0,
              subst
                  (λ old.
                    KeepsHigh old (check_high d' left pivot right index).0.last_high left pivot
                      right index)
                  low.1 high.1,
            )
      | inr (e, s) ↦ rw (check_pivots, s) (low.0, inl low.1)
    ]

check_low-IsTraced :
    (d : CvdDivergenceDetector) (left pivot right : Candle) (index : ℤ) (taken : List Candle)
    → ((p : Candle) (i : ℤ) → d.last_low ≡ some (p, i) → IsPrevious bullish taken p i)
    → OfEvent (IsTraced taken index) (check_low d left pivot right index).1
unfolding check_low
check_low-IsTraced d left pivot right index taken h =
    elim (Bool-cases (is_swing_low left pivot right)) [
      | inl s ↦ rw s (
          evaluate-IsTraced (record d { pivots_low = d.pivots_low + 1 }) bullish pivot index
            d.last_low taken h)
      | inr s ↦ rw s tt
    ]

check_high-IsTraced :
    (d : CvdDivergenceDetector) (left pivot right : Candle) (index : ℤ) (taken : List Candle)
    → ((p : Candle) (i : ℤ) → d.last_high ≡ some (p, i) → IsPrevious bearish taken p i)
    → OfEvent (IsTraced taken index) (check_high d left pivot right index).1
unfolding check_high
check_high-IsTraced d left pivot right index taken h =
    elim (Bool-cases (is_swing_high left pivot right)) [
      | inl s ↦ rw s (
          evaluate-IsTraced (record d { pivots_high = d.pivots_high + 1 }) bearish pivot index
            d.last_high taken h)
      | inr s ↦ rw s tt
    ]

pub check_pivots-IsTraced :
    (d : CvdDivergenceDetector) (left pivot right : Candle) (index : ℤ) (taken : List Candle)
    → ((p : Candle) (i : ℤ) → d.last_low ≡ some (p, i) → IsPrevious bullish taken p i)
    → ((p : Candle) (i : ℤ) → d.last_high ≡ some (p, i) → IsPrevious bearish taken p i)
    → OfEvent (IsTraced taken index) (check_pivots d left pivot right index).1
unfolding check_pivots
check_pivots-IsTraced d left pivot right index taken l h =
    let low = check_low-IsTraced d left pivot right index taken l in
    let kept = check_low_pivots d left pivot right index in
    let d' = (check_low d left pivot right index).0 in
    elim (Option-cases (check_low d left pivot right index).1) [
      | inl n ↦
          rw (check_pivots, OfEvent, n)
            (check_high-IsTraced d' left pivot right index taken (λ p i e. h p i (sym kept.1 ∙ e)))
      | inr (e, s) ↦ rw (check_pivots, OfEvent, s) (rw (OfEvent, s) at low)
    ]
