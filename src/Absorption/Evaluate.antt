-- ===== src/Absorption/Evaluate.antt =====
-- What a detection means, and which counter an evaluation raises.
use deltaengine.Prelude.{
  ℕ, ◌+◌, ◌≤◌, List, [], ◌∷◌, Option, none, some, true, false, ◌&&◌, Decimal, pos, ◌≤ℤ◌, ◌<ℤ◌, ltb,
  ltb_ℤ, if◌then◌else◌, int_eq, contains, length, All, ok, Returns, ◌≡◌, refl, ◌⊎◌, inl, inr,
  Bool-cases, arith,
}
use deltaengine.Trades.{Trade}
use deltaengine.OrderBook.{OrderBookSnapshot}
use deltaengine.VolumeRef.{Quotient}
use deltaengine.Absorption.Conditions.{
  buy_volume, sell_volume, Reaches, sold-Reaches, bought-Reaches, sold_short, bought_short,
  All-prices, Holds, replenished-Holds, depleted, IsStall, IsWide, distinct_prices-IsStall,
  distinct_prices-IsWide,
}
use deltaengine.Absorption.{
  Classification, buy_absorption, sell_absorption, Strength, AbsorptionResult, AbsorptionDetector,
  bought, sold, distinct_prices, min_from, max_from, times, is_enough, replenished, strength_of,
  judge, evaluate_stalled, evaluate,
}

min_from_bound :
    (p : Decimal) (qs : List Decimal) (m : Decimal)
    → min_from p qs ≡ m
    → (m ≤ℤ p) × All (λ q. m ≤ℤ q) qs
unfolding min_from
min_from_bound p [] m e = (rw e (omega arith), tt)
min_from_bound p (q ∷ qs) m e =
    let (first, others) = min_from_bound (if ltb_ℤ q p then q else p) qs m e in
    (ground (arith, first), (ground (arith, first), others))

max_from_bound :
    (p : Decimal) (qs : List Decimal) (m : Decimal)
    → max_from p qs ≡ m
    → (p ≤ℤ m) × All (λ q. q ≤ℤ m) qs
unfolding max_from
max_from_bound p [] m e = (rw e (omega arith), tt)
max_from_bound p (q ∷ qs) m e =
    let (first, others) = max_from_bound (if ltb_ℤ p q then q else p) qs m e in
    (ground (arith, first), (ground (arith, first), others))

-- Why a result has its classification.
abbrev pub IsJustified :
    AbsorptionDetector → OrderBookSnapshot → OrderBookSnapshot → Quotient → Classification → Type 0
IsJustified d now start threshold buy_absorption =
    Reaches (sell_volume d.window) threshold × Holds now.bids start.bids d.window
IsJustified d now start threshold sell_absorption =
    Reaches (buy_volume d.window) threshold × Holds now.asks start.asks d.window

abbrev pub one : Strength
one = record { numerator = pos 1; denominator = pos 1 }

-- A result that `evaluate` may give.
pub record IsDetection (d : AbsorptionDetector) (now start : OrderBookSnapshot)
    (threshold : Quotient) (r : AbsorptionResult) : Type 0 where
  pub stalled : IsStall d.price_stall_ticks d.window
  pub justified : IsJustified d now start threshold r.classification
  pub strength : r.strength ≡ one
  pub range : All (λ t. (r.price_low ≤ℤ t.price) × (t.price ≤ℤ r.price_high)) d.window

-- What an evaluation may come to, each with its counter.
pub data Verdict : Type 0 where
  detection weak wide gone : Verdict

-- Exactly the counter of the verdict goes up, by one.
pub record Counts (d d' : AbsorptionDetector) (v : Verdict) : Type 0 where
  pub events : d'.events_detected ≡ d.events_detected + (elim v [ detection ↦ 1 | _ ↦ 0 ])
  pub aggression :
      d'.aggression_condition_fails ≡ d.aggression_condition_fails + (elim v [ weak ↦ 1 | _ ↦ 0 ])
  pub stall : d'.stall_condition_fails ≡ d.stall_condition_fails + (elim v [ wide ↦ 1 | _ ↦ 0 ])
  pub replenish :
      d'.replenish_condition_fails ≡ d.replenish_condition_fails + (elim v [ gone ↦ 1 | _ ↦ 0 ])

-- Why the verdict is given, with its result.
abbrev pub IsVerdict :
    AbsorptionDetector
    → OrderBookSnapshot
    → OrderBookSnapshot
    → Quotient
    → Verdict
    → Option AbsorptionResult
    → Type 0
IsVerdict d now start threshold detection none = ⊥
IsVerdict d now start threshold detection (some r) = IsDetection d now start threshold r
IsVerdict d now start threshold weak none =
    (Reaches (sell_volume d.window) threshold → ⊥) × (Reaches (buy_volume d.window) threshold → ⊥)
IsVerdict d now start threshold wide none = IsWide d.price_stall_ticks d.window
IsVerdict d now start threshold gone none =
    (IsJustified d now start threshold buy_absorption → ⊥)
    × (IsJustified d now start threshold sell_absorption → ⊥)
IsVerdict d now start threshold _ (some r) = ⊥

strength_of-one :
    (v : Decimal) (q : Quotient)
    → pos 0 <ℤ q.numerator
    → is_enough v q ≡ true
    → strength_of v q ≡ ok one
unfolding strength_of
strength_of-one v q positive enough = ground arith

bounds_together :
    (low high : Decimal) (ps : List Decimal)
    → All (λ p. low ≤ℤ p) ps
    → All (λ p. p ≤ℤ high) ps
    → All (λ p. (low ≤ℤ p) × (p ≤ℤ high)) ps
bounds_together low high [] h k = tt
bounds_together low high (p ∷ ps) h k = ((h.0, k.0), bounds_together low high ps h.1 k.1)

both_bounds :
    (p : Decimal) (ps : List Decimal)
    → All (λ x. (min_from p ps ≤ℤ x) × (x ≤ℤ max_from p ps)) (p ∷ ps)
both_bounds p ps =
    let low = min_from_bound p ps (min_from p ps) refl in
    let high = max_from_bound p ps (max_from p ps) refl in
    ((low.0, high.0), bounds_together (min_from p ps) (max_from p ps) ps low.1 high.1)

-- What an evaluation that reaches the aggression condition returns.
abbrev pub IsOutcome :
    AbsorptionDetector
    → OrderBookSnapshot
    → OrderBookSnapshot
    → Quotient
    → AbsorptionDetector × Option AbsorptionResult
    → Type 0
IsOutcome d now start threshold r =
    (v : Verdict) × Counts d r.0 v × IsVerdict d now start threshold v r.1

judge-IsOutcome :
    (d e : AbsorptionDetector) (now start : OrderBookSnapshot) (threshold : Quotient)
    (classification : Classification) (aggression : Decimal) (p : Decimal) (ps : List Decimal)
    → distinct_prices d.window ≡ p ∷ ps
    → length (distinct_prices d.window) ≤ d.price_stall_ticks
    → Counts d (record e { events_detected = e.events_detected + 1 }) detection
    → pos 0 <ℤ threshold.numerator
    → is_enough aggression threshold ≡ true
    → IsJustified d now start threshold classification
    → Returns (IsOutcome d now start threshold) (judge e classification aggression threshold p ps)
unfolding judge
judge-IsOutcome d e now start threshold classification aggression p ps same stalled counted positive
      enough why =
    rw (strength_of-one aggression threshold positive enough) (
      detection,
      counted,
      record {
        stalled = distinct_prices-IsStall d.price_stall_ticks d.window stalled;
        justified = why;
        strength = refl;
        range =
            All-prices (λ x. (min_from p ps ≤ℤ x) × (x ≤ℤ max_from p ps)) d.window
              (rw same (both_bounds p ps));
      },
    )

-- One counter more.
none_changed : (n : ℕ) → n ≡ n + 0
none_changed n = omega arith

count_weak :
    (d : AbsorptionDetector)
    → Counts d (record d { aggression_condition_fails = d.aggression_condition_fails + 1 }) weak
count_weak d = record {
  events = none_changed d.events_detected;
  aggression = refl;
  stall = none_changed d.stall_condition_fails;
  replenish = none_changed d.replenish_condition_fails;
}

count_wide :
    (d : AbsorptionDetector)
    → Counts d (record d { stall_condition_fails = d.stall_condition_fails + 1 }) wide
count_wide d = record {
  events = none_changed d.events_detected;
  aggression = none_changed d.aggression_condition_fails;
  stall = refl;
  replenish = none_changed d.replenish_condition_fails;
}

count_gone :
    (d : AbsorptionDetector)
    → Counts d (record d { replenish_condition_fails = d.replenish_condition_fails + 1 }) gone
count_gone d = record {
  events = none_changed d.events_detected;
  aggression = none_changed d.aggression_condition_fails;
  stall = none_changed d.stall_condition_fails;
  replenish = refl;
}

count_detection :
    (d : AbsorptionDetector) (n : ℕ)
    → Counts d
        (record d { events_detected = d.events_detected + 1; double_direction_events = n })
        detection
count_detection d n = record {
  events = refl;
  aggression = none_changed d.aggression_condition_fails;
  stall = none_changed d.stall_condition_fails;
  replenish = none_changed d.replenish_condition_fails;
}

evaluate_stalled-IsOutcome :
    (d : AbsorptionDetector) (now start : OrderBookSnapshot) (q : Quotient) (p : Decimal)
    (ps : List Decimal)
    → distinct_prices d.window ≡ p ∷ ps
    → length (distinct_prices d.window) ≤ d.price_stall_ticks
    → pos 0 <ℤ (times q d.volume_multiplier).numerator
    → Returns
        (IsOutcome d now start (times q d.volume_multiplier))
        (evaluate_stalled d now start q p ps)
unfolding evaluate_stalled
evaluate_stalled-IsOutcome d now start q p ps same stalled positive =
    let threshold = times q d.volume_multiplier in
    let doubles =
      d.double_direction_events
      + (if is_enough (bought d.window) threshold && replenished now.asks start.asks (p ∷ ps)
          then 1
          else 0) in
    let buys =
      λ (b : is_enough (sold d.window) threshold ≡ true)
          (r : replenished now.bids start.bids (p ∷ ps) ≡ true).
        judge-IsOutcome d (record d { double_direction_events = doubles }) now start threshold
          buy_absorption (sold d.window) p ps same stalled (count_detection d doubles) positive b
          (
            sold-Reaches d.window threshold b,
            replenished-Holds now.bids start.bids d.window (rw same r),
          ) in
    let sells =
      λ (s : is_enough (bought d.window) threshold ≡ true)
          (a : replenished now.asks start.asks (p ∷ ps) ≡ true).
        judge-IsOutcome d d now start threshold sell_absorption (bought d.window) p ps same stalled
          (count_detection d d.double_direction_events) positive s
          (
            bought-Reaches d.window threshold s,
            replenished-Holds now.asks start.asks d.window (rw same a),
          ) in
    let no_bids =
      λ (r : replenished now.bids start.bids (p ∷ ps) ≡ false)
          (h : IsJustified d now start threshold buy_absorption).
        depleted now.bids start.bids d.window (rw same r) h.1 in
    let no_asks =
      λ (a : replenished now.asks start.asks (p ∷ ps) ≡ false)
          (h : IsJustified d now start threshold sell_absorption).
        depleted now.asks start.asks d.window (rw same a) h.1 in
    let no_sold =
      λ (b : is_enough (sold d.window) threshold ≡ false)
          (h : IsJustified d now start threshold buy_absorption).
        sold_short d.window threshold b h.0 in
    let no_bought =
      λ (s : is_enough (bought d.window) threshold ≡ false)
          (h : IsJustified d now start threshold sell_absorption).
        bought_short d.window threshold s h.0 in
    elim (Bool-cases (is_enough (sold d.window) threshold)) [
      | inl b ↦ elim (Bool-cases (is_enough (bought d.window) threshold)) [
        | inl s ↦ elim (Bool-cases (replenished now.bids start.bids (p ∷ ps))) [
          | inl r ↦ rw (b, s, r) (rw s at (buys b r))
          | inr r ↦ elim (Bool-cases (replenished now.asks start.asks (p ∷ ps))) [
            | inl a ↦ rw (b, s, r, a) (sells s a)
            | inr a ↦ rw (b, s, r, a) (gone, count_gone d, (no_bids r, no_asks a))
          ]
        ]
        | inr s ↦ elim (Bool-cases (replenished now.bids start.bids (p ∷ ps))) [
          | inl r ↦ rw (b, s, r) (rw s at (buys b r))
          | inr r ↦ rw (b, s, r) (gone, count_gone d, (no_bids r, no_bought s))
        ]
      ]
      | inr b ↦ elim (Bool-cases (is_enough (bought d.window) threshold)) [
        | inl s ↦ elim (Bool-cases (replenished now.asks start.asks (p ∷ ps))) [
          | inl a ↦ rw (b, s, a) (sells s a)
          | inr a ↦ rw (b, s, a) (gone, count_gone d, (no_sold b, no_asks a))
        ]
        | inr s ↦
            rw (b, s)
              (
                weak,
                count_weak d,
                (sold_short d.window threshold b, bought_short d.window threshold s),
              )
      ]
    ]

some_member : (ps : List Decimal) (p : Decimal) → contains ps p ≡ true → 1 ≤ length ps
some_member [] p c = absurd (ground arith)
some_member (q ∷ ps) p c = omega arith

distinct_prices-nonempty : (ts : List Trade) → 1 ≤ length ts → 1 ≤ length (distinct_prices ts)
unfolding distinct_prices
distinct_prices-nonempty [] h = absurd (omega arith)
distinct_prices-nonempty (t ∷ ts) h = elim (Bool-cases (contains (distinct_prices ts) t.price)) [
  | inl c ↦ rw c (some_member (distinct_prices ts) t.price c)
  | inr c ↦ rw c (omega arith)
]

-- The set of prices is empty, or has a first member.
List-cases : (ps : List Decimal) → (ps ≡ []) ⊎ ((p : Decimal) × (qs : List Decimal) × (ps ≡ p ∷ qs))
List-cases [] = inl refl
List-cases (p ∷ qs) = inr (p, qs, refl)

pub evaluate-IsOutcome :
    (d : AbsorptionDetector) (now start : OrderBookSnapshot) (q : Quotient)
    → 1 ≤ length d.window
    → pos 0 <ℤ (times q d.volume_multiplier).numerator
    → Returns (IsOutcome d now start (times q d.volume_multiplier)) (evaluate d now start (some q))
unfolding evaluate
evaluate-IsOutcome d now start q full positive =
    elim (Bool-cases (ltb d.price_stall_ticks (length (distinct_prices d.window)))) [
      | inl l ↦
          rw l
            (wide, count_wide d, distinct_prices-IsWide d.price_stall_ticks d.window (ground arith))
      | inr l ↦ elim (List-cases (distinct_prices d.window)) [
        | inl e ↦ absurd (ground (arith, distinct_prices-nonempty d.window full, e))
        | inr (p, ps, e) ↦
            rw (l, e) (evaluate_stalled-IsOutcome d now start q p ps e (ground arith) positive)
      ]
    ]
