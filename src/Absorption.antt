-- ===== src/Absorption.antt =====
-- The absorption detector (src/orderflow/absorption.py): a sliding window of trades, and the three
-- conditions on it. `book_state.snapshot()` and `volume_ref.current()` are arguments of the call
-- that reads them. A quotient is kept as a pair; a division by 0 raises.
pub mod Conditions
pub mod Window
pub mod Totality
pub mod Evaluate
use deltaengine.Prelude.{
  ℕ, ◌+◌, ◌*◌, ◌≤◌, List, [], ◌∷◌, ◌++◌, map, Option, none, some, Bool, true, false, not, ◌&&◌,
  ◌||◌, Decimal, ℤ, pos, ◌+ℤ◌, ◌*ℤ◌, ltb, leb, ltb_ℤ, leb_ℤ, if◌then◌else◌, ◌==◌, int_eq, nat_eq,
  contains, length, Result, ok, raise, division_error, ◌>>=◌,
}
use deltaengine.Trades.{Time, Trade, is_buy}
use deltaengine.OrderBook.{OrderBookSnapshot, quantity_at}
use deltaengine.VolumeRef.{Quotient}

pub data Classification : Type 0 where
  buy_absorption sell_absorption : Classification

-- A strength of `numerator / denominator`.
pub record Strength : Type 0 where
  pub numerator : ℤ
  pub denominator : ℤ

pub record AbsorptionResult : Type 0 where
  pub classification : Classification
  pub strength : Strength
  pub price_low : Decimal
  pub price_high : Decimal

pub record AbsorptionDetector : Type 0 where
  pub window_size : Time
  pub price_stall_ticks : ℕ
  pub volume_multiplier : Quotient
  pub window : List Trade
  pub window_start_snapshot : Option OrderBookSnapshot
  pub last_result : Option AbsorptionResult
  pub events_detected : ℕ
  pub aggression_condition_fails : ℕ
  pub stall_condition_fails : ℕ
  pub replenish_condition_fails : ℕ
  pub double_direction_events : ℕ

-- `AbsorptionDetector.__init__`
unfoldable pub new_detector : ℕ → ℕ → Quotient → AbsorptionDetector
new_detector window_sec stall_ticks multiplier = record {
  window_size = window_sec * 1_000_000;
  price_stall_ticks = stall_ticks;
  volume_multiplier = multiplier;
  window = [];
  window_start_snapshot = none;
  last_result = none;
  events_detected = 0;
  aggression_condition_fails = 0;
  stall_condition_fails = 0;
  replenish_condition_fails = 0;
  double_direction_events = 0;
}

-- `set_params`
unfoldable pub set_params : AbsorptionDetector → Option ℕ → Option Quotient → AbsorptionDetector
set_params d ticks multiplier = record d {
  price_stall_ticks = elim ticks [ none ↦ d.price_stall_ticks | some n ↦ n ];
  volume_multiplier = elim multiplier [ none ↦ d.volume_multiplier | some q ↦ q ];
}

-- The loop of `observe_trade` that prunes the window, up to the cutoff `now - size`.
unfoldable pub prune : Time → Time → List Trade → List Trade
prune size now [] = []
prune size now (t ∷ ts) =
    let rest = prune size now ts in if leb (t.event_time + size) now then rest else t ∷ ts

abbrev pub head_time : List Trade → Option Time
head_time [] = none
head_time (t ∷ ts) = some t.event_time

-- `old_head != new_head`
abbrev pub differs : Option Time → Option Time → Bool
differs none none = false
differs (some a) (some b) = not (a == b)
differs none (some b) = true
differs (some a) none = true

-- The quantities that the trades of the window bought and sold, a side that is not BUY being sold.
unfoldable pub bought : List Trade → Decimal
bought [] = pos 0
bought (t ∷ ts) = (if is_buy t.side then t.quantity else pos 0) +ℤ bought ts

unfoldable pub sold : List Trade → Decimal
sold [] = pos 0
sold (t ∷ ts) = (if is_buy t.side then pos 0 else t.quantity) +ℤ sold ts

-- The set of the prices.
unfoldable pub distinct_prices : List Trade → List Decimal
distinct_prices [] = []
distinct_prices (t ∷ ts) =
    let rest = distinct_prices ts in if contains rest t.price then rest else t.price ∷ rest

-- `min` and `max` of a set with a member `p` and these others.
unfoldable pub min_from : Decimal → List Decimal → Decimal
min_from p [] = p
min_from p (q ∷ qs) = min_from (if ltb_ℤ q p then q else p) qs

unfoldable pub max_from : Decimal → List Decimal → Decimal
max_from p [] = p
max_from p (q ∷ qs) = max_from (if ltb_ℤ p q then q else p) qs

-- `vol_ref * volume_multiplier`
abbrev pub times : Quotient → Quotient → Quotient
times a b = record {
  numerator = a.numerator *ℤ b.numerator;
  denominator = a.denominator * b.denominator;
}

-- `aggression >= threshold`
abbrev pub is_enough : Decimal → Quotient → Bool
is_enough v q = leb_ℤ q.numerator (v *ℤ pos q.denominator)

-- The side holds at every price at least what it held at the start of the window.
unfoldable pub replenished :
    List (Decimal × Decimal) → List (Decimal × Decimal) → List Decimal → Bool
unfolding quantity_at
replenished now start [] = true
replenished now start (p ∷ ps) =
    leb_ℤ (quantity_at start p) (quantity_at now p) && replenished now start ps

-- `min(aggression / threshold, 1)`
unfoldable pub strength_of : Decimal → Quotient → Result Strength
strength_of v q =
    let scaled = v *ℤ pos q.denominator in
    let is_fraction =
      if ltb_ℤ (pos 0) q.numerator then ltb_ℤ scaled q.numerator else ltb_ℤ q.numerator scaled in
    if q.numerator == pos 0
    then raise division_error
    else if is_fraction
    then ok (record { numerator = scaled; denominator = q.numerator })
    else ok (record { numerator = pos 1; denominator = pos 1 })

-- The result of a detection in one direction.
unfoldable pub judge :
    AbsorptionDetector
    → Classification
    → Decimal
    → Quotient
    → Decimal
    → List Decimal
    → Result (AbsorptionDetector × Option AbsorptionResult)
unfolding strength_of min_from max_from
judge d classification aggression threshold p ps = do
  strength ← strength_of aggression threshold
  ok (
    record d { events_detected = d.events_detected + 1 },
    some (record {
      classification = classification;
      strength = strength;
      price_low = min_from p ps;
      price_high = max_from p ps;
    }),
  )

-- `_evaluate` from the aggression condition on, for a set of prices with a member `p`.
unfoldable pub evaluate_stalled :
    AbsorptionDetector
    → OrderBookSnapshot
    → OrderBookSnapshot
    → Quotient
    → Decimal
    → List Decimal
    → Result (AbsorptionDetector × Option AbsorptionResult)
unfolding judge bought sold replenished
evaluate_stalled d now start reference p ps =
    let threshold = times reference d.volume_multiplier in
    let buys = is_enough (sold d.window) threshold in
    let sells = is_enough (bought d.window) threshold in
    let buy_replenished = buys && replenished now.bids start.bids (p ∷ ps) in
    let sell_replenished = sells && replenished now.asks start.asks (p ∷ ps) in
    if not buys && not sells
    then ok (record d { aggression_condition_fails = d.aggression_condition_fails + 1 }, none)
    else if not buy_replenished && not sell_replenished
    then ok (record d { replenish_condition_fails = d.replenish_condition_fails + 1 }, none)
    else if buy_replenished
    then judge
        (record d {
          double_direction_events = d.double_direction_events + (if sell_replenished then 1 else 0);
        })
        buy_absorption (sold d.window) threshold p ps
    else judge d sell_absorption (bought d.window) threshold p ps

-- `_evaluate`; the window is not empty where it is called.
unfoldable pub evaluate :
    AbsorptionDetector
    → OrderBookSnapshot
    → OrderBookSnapshot
    → Option Quotient
    → Result (AbsorptionDetector × Option AbsorptionResult)
unfolding evaluate_stalled distinct_prices
evaluate d now start reference =
    let prices = distinct_prices d.window in
    if ltb d.price_stall_ticks (length prices)
    then ok (record d { stall_condition_fails = d.stall_condition_fails + 1 }, none)
    else elim reference [
      | none ↦ ok (d, none)
      | some q ↦ elim prices [ [] ↦ ok (d, none) | p ∷ ps ↦ evaluate_stalled d now start q p ps ]
    ]

-- The lines of `observe_trade` up to the evaluation: the window with the trade, and the snapshot
-- that is taken when the window was empty or has lost its head.
unfoldable pub slide : AbsorptionDetector → Option OrderBookSnapshot → Trade → AbsorptionDetector
unfolding prune
slide d snap t =
    let kept = prune d.window_size t.event_time d.window in
    let moves = length d.window == 0 || differs (head_time d.window) (head_time kept) in
    record d {
      window = kept ++ t ∷ [];
      window_start_snapshot =
          if moves
          then elim snap [ none ↦ d.window_start_snapshot | some s ↦ some s ]
          else d.window_start_snapshot;
    }

abbrev pub store_result : AbsorptionDetector × Option AbsorptionResult → Result AbsorptionDetector
store_result r = ok (record r.0 { last_result = r.1 })

unfoldable pub observe_trade :
    AbsorptionDetector
    → Option OrderBookSnapshot
    → Option Quotient
    → Trade
    → Result AbsorptionDetector
unfolding slide evaluate
observe_trade d snap reference t =
    let d' = slide d snap t in
    elim snap [
      | none ↦ ok (record d' { last_result = none })
      | some now ↦ elim d'.window_start_snapshot [
        | none ↦ ok (record d' { last_result = none })
        | some start ↦ evaluate d' now start reference >>= store_result
      ]
    ]
