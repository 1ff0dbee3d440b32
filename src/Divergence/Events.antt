-- ===== src/Divergence/Events.antt =====
-- What an event means, and that every candle is counted.
use deltaengine.Prelude.{
  ℕ, ◌+◌, List, [], ◌∷◌, none, ℤ, pos, ◌-ℤ◌, ◌≡◌, refl, ◌⊎◌, inl, inr, Bool-cases, arith,
}
use deltaengine.Cvd.{Candle}
use deltaengine.Divergence.{
  DivergenceEvent, CvdDivergenceDetector, accept, detect, update, is_late, is_other,
}
use deltaengine.Divergence.Pivots.{
  IsEvent, IsAbout, OfEvent, Keeps, check_pivots-IsSound, check_pivots-Keeps,
}

-- The pivot is the middle one of the three candles that the detector holds.
abbrev pub IsAboutMiddle : List Candle → DivergenceEvent → Type 0
IsAboutMiddle (left ∷ pivot ∷ right ∷ []) e = IsAbout left pivot right e
IsAboutMiddle _ e = ⊥

detect_sound :
    (d : CvdDivergenceDetector) (candles : List Candle) (index : ℤ)
    → OfEvent
        (λ e. IsEvent d.min_price_move d.min_bar_distance e × IsAboutMiddle candles e)
        (detect d candles index).1
unfolding detect
detect_sound d [] index = tt
detect_sound d (a ∷ []) index = tt
detect_sound d (a ∷ b ∷ []) index = tt
detect_sound d (left ∷ pivot ∷ right ∷ []) index =
    check_pivots-IsSound d left pivot right (index -ℤ pos 1)
detect_sound d (a ∷ b ∷ c ∷ k ∷ ks) index = tt

pub detect-Keeps :
    (d : CvdDivergenceDetector) (candles : List Candle) (index : ℤ)
    → Keeps d (detect d candles index).0
unfolding detect
detect-Keeps d [] index = (refl, refl, refl, refl, refl, refl, refl, refl)
detect-Keeps d (a ∷ []) index = (refl, refl, refl, refl, refl, refl, refl, refl)
detect-Keeps d (a ∷ b ∷ []) index = (refl, refl, refl, refl, refl, refl, refl, refl)
detect-Keeps d (left ∷ pivot ∷ right ∷ []) index =
    check_pivots-Keeps d left pivot right (index -ℤ pos 1)
detect-Keeps d (a ∷ b ∷ c ∷ k ∷ ks) index = (refl, refl, refl, refl, refl, refl, refl, refl)

-- Whatever the detector has seen, an event that it returns is a regular divergence: its pivot is
-- the middle one of the last three candles taken, a swing low or high between its neighbours; the
-- price moved against the CVD between the two pivots, in the direction that the event names; and
-- the move is at least `min_price_move`, the distance at least `min_bar_distance`.
pub update_regular :
    (d : CvdDivergenceDetector) (k : Candle)
    → OfEvent
        (λ e.
          IsEvent d.min_price_move d.min_bar_distance e × IsAboutMiddle (update d k).0.candles e)
        (update d k).1
unfolding update accept
update_regular d k =
    let d' = accept d k in
    let s = detect_sound d' d'.candles (pos d.bar_index) in
    let kept = detect-Keeps d' d'.candles (pos d.bar_index) in
    elim (Bool-cases (is_late d.last_time k.bar_time)) [
      | inl l ↦ rw l tt
      | inr l ↦ elim (Bool-cases (is_other d.symbol k.symbol)) [
        | inl o ↦ rw (l, o) tt
        | inr o ↦ elim (Bool-cases (is_other d.timeframe k.timeframe)) [
          | inl f ↦ rw (l, o, f) tt
          | inr f ↦ rw (l, o, f, kept.2) s
        ]
      ]
    ]

-- The candles that the counters account for.
abbrev pub accounted : CvdDivergenceDetector → ℕ
accounted d =
    d.candles_in + d.rejected_out_of_order + d.rejected_symbol_mismatch
    + d.rejected_timeframe_mismatch

-- Every candle is counted, taken or rejected: each `update` raises the sum of `candles_in` and the
-- three counters of rejected candles by one, and a call that raises another counter than
-- `candles_in` holds the same candles as before and returns no event.
pub update_accounts :
    (d : CvdDivergenceDetector) (k : Candle)
    → let r = update d k in
      (accounted r.0 ≡ accounted d + 1)
      × ((r.0.candles_in ≡ d.candles_in + 1) ⊎ ((r.0.candles ≡ d.candles) × (r.1 ≡ none)))
unfolding update accept
update_accounts d k =
    let d' = accept d k in
    let kept = detect-Keeps d' d'.candles (pos d.bar_index) in ground (arith, kept)
