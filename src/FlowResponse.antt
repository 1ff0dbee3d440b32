-- ===== src/FlowResponse.antt =====
-- Order-flow pressure against the response of the price (src/orderflow/flow_price_response.py): the
-- buckets of one second, the rolling windows over them, and the snapshots. Quotients are kept as
-- pairs; a quotient's denominator is positive, so that two are compared by multiplication.
pub mod Classify
pub mod Detector
pub mod Outcomes
pub mod Volumes
pub mod Tracking
pub mod Stream
use deltaengine.Prelude.{
  ℕ, ◌+◌, ◌*◌, ◌/◌, List, [], ◌∷◌, ◌++◌, map, Option, none, some, Bool, true, false, not, ◌||◌,
  String, Decimal, ℤ, pos, pos_part, neg_part, ◌+ℤ◌, ◌-ℤ◌, ◌*ℤ◌, ltb, leb, ltb_ℤ, leb_ℤ,
  if◌then◌else◌, ◌==◌, nat_eq, int_eq, string_eq, length, count, sum_by, Result, ok, raise,
  value_error,
}
use deltaengine.Trades.{Time, Trade, is_valid_side, is_buy, is_earlier}
use deltaengine.VolumeRef.{Quotient}

pub data FlowResponseState : Type 0 where
  unclear buy_effective sell_effective buy_stalled sell_stalled : FlowResponseState
  buy_trapped sell_trapped : FlowResponseState

-- `pressure_side`
pub data Pressure : Type 0 where
  buying selling neutral : Pressure

pub record FlowResponseSnapshot : Type 0 where
  pub event_time : Time
  pub symbol : String
  pub window_sec : ℕ
  pub state : FlowResponseState
  pub pressure_side : Pressure
  pub buy_volume : Decimal
  pub sell_volume : Decimal
  pub total_volume : Decimal
  pub delta : Decimal
  pub pressure_ratio : Quotient
  pub persistence : Quotient
  pub first_price : Decimal
  pub last_price : Decimal
  pub high_price : Decimal
  pub low_price : Decimal
  pub price_change : Decimal
  pub price_change_bps : Quotient
  pub relative_volume : Option Quotient
  pub trade_count : ℕ
  pub observed_span_sec : ℕ

pub record SecondBucket : Type 0 where
  pub second : ℕ
  pub first_time : Time
  pub last_time : Time
  pub open_price : Decimal
  pub high : Decimal
  pub low : Decimal
  pub close : Decimal
  pub buy_volume : Decimal
  pub sell_volume : Decimal
  pub trade_count : ℕ

-- `max(a, b)` and `min(a, b)`
abbrev pub max_of : Decimal → Decimal → Decimal
max_of a b = if ltb_ℤ a b then b else a

abbrev pub min_of : Decimal → Decimal → Decimal
min_of a b = if ltb_ℤ b a then b else a

-- `_SecondBucket.add`
unfoldable pub add : SecondBucket → Trade → SecondBucket
add b t = record b {
  last_time = t.event_time;
  high = max_of b.high t.price;
  low = min_of b.low t.price;
  close = t.price;
  trade_count = b.trade_count + 1;
  buy_volume = if is_buy t.side then b.buy_volume +ℤ t.quantity else b.buy_volume;
  sell_volume =
      if is_valid_side t.side
      then (if is_buy t.side then b.sell_volume else b.sell_volume +ℤ t.quantity)
      else b.sell_volume;
}

-- `_SecondBucket.from_trade`
unfoldable pub from_trade : Trade → ℕ → SecondBucket
unfolding add
from_trade t second =
    add
      (record {
        second = second;
        first_time = t.event_time;
        last_time = t.event_time;
        open_price = t.price;
        high = t.price;
        low = t.price;
        close = t.price;
        buy_volume = pos 0;
        sell_volume = pos 0;
        trade_count = 0;
      })
      t

-- `_SecondBucket.delta`
abbrev pub delta_of : SecondBucket → Decimal
delta_of b = b.buy_volume -ℤ b.sell_volume

pub record FlowPriceResponseDetector : Type 0 where
  pub windows_sec : List ℕ
  pub baseline_window_sec : ℕ
  pub pressure_threshold : Quotient
  pub persistence_threshold : Quotient
  pub stall_bps : Quotient
  pub effective_bps : Quotient
  pub opposite_bps : Quotient
  pub min_trades : ℕ
  pub buckets : List SecondBucket
  pub last_event_time : Option Time
  pub last_emitted_second : Option ℕ
  pub symbol : Option String
  pub rejected_out_of_order : ℕ
  pub rejected_invalid_side : ℕ
  pub rejected_invalid_trade : ℕ

-- `int(event_time.timestamp())`
abbrev pub second_of : Time → ℕ
second_of t = t / 1_000_000

-- `a / b`, for a `b` that is not 0.
unfoldable pub quotient : Decimal → Decimal → Quotient
quotient a b = record {
  numerator = if ltb_ℤ b (pos 0) then pos 0 -ℤ a else a;
  denominator = pos_part b + neg_part b;
}

abbrev pub no_quotient : Quotient
no_quotient = record { numerator = pos 0; denominator = 1 }

-- `-q` and `abs(q)`
unfoldable pub negated : Quotient → Quotient
negated q = record q { numerator = pos 0 -ℤ q.numerator }

unfoldable pub absolute : Quotient → Quotient
absolute q = record q { numerator = pos (pos_part q.numerator + neg_part q.numerator) }

-- `q <= r` and `q < r`
unfoldable pub at_most : Quotient → Quotient → Bool
at_most q r = leb_ℤ (q.numerator *ℤ pos r.denominator) (r.numerator *ℤ pos q.denominator)

unfoldable pub below : Quotient → Quotient → Bool
below q r = ltb_ℤ (q.numerator *ℤ pos r.denominator) (r.numerator *ℤ pos q.denominator)

-- `pressure_side == "NEUTRAL"`
abbrev pub is_neutral : Pressure → Bool
is_neutral neutral = true
is_neutral _ = false

-- `_classify` behind its first guard: the response to a pressure of one side, with the move in the
-- direction of the pressure and the three states of the side.
unfoldable pub respond :
    FlowPriceResponseDetector
    → Quotient
    → Quotient
    → FlowResponseState
    → FlowResponseState
    → FlowResponseState
    → FlowResponseState
respond d directed bps effective trapped stalled =
    if at_most d.effective_bps directed
    then effective
    else if at_most directed (negated d.opposite_bps)
    then trapped
    else if at_most (absolute bps) d.stall_bps
    then stalled
    else unclear

unfoldable pub classify_side : FlowPriceResponseDetector → Pressure → Quotient → FlowResponseState
classify_side d buying bps = respond d bps bps buy_effective buy_trapped buy_stalled
classify_side d selling bps = respond d (negated bps) bps sell_effective sell_trapped sell_stalled
classify_side d neutral bps = unclear

-- `_classify`
unfoldable pub classify :
    FlowPriceResponseDetector → Pressure → Quotient → Quotient → Quotient → ℕ → FlowResponseState
classify d side ratio persistence bps trade_count =
    if ltb trade_count d.min_trades
      || is_neutral side
      || at_most (absolute ratio) d.pressure_threshold
      || below persistence d.persistence_threshold
    then unclear
    else classify_side d side bps

-- `_window_buckets`, and whether a bucket is behind the cutoff.
abbrev pub in_window : ℕ → ℕ → ℕ → Bool
in_window window end_second second = leb (end_second + 1) (second + window)

unfoldable pub window_buckets : ℕ → ℕ → List SecondBucket → List SecondBucket
window_buckets window end_second [] = []
window_buckets window end_second (b ∷ bs) =
    let rest = window_buckets window end_second bs in
    if in_window window end_second b.second then b ∷ rest else rest

-- `_ready`
unfoldable pub ready : List SecondBucket → ℕ → ℕ → Bool
ready [] window end_second = false
ready (b ∷ bs) window end_second = leb (window + b.second) (end_second + 1)

-- `_prune`
unfoldable pub prune : ℕ → ℕ → List SecondBucket → List SecondBucket
prune baseline end_second [] = []
prune baseline end_second (b ∷ bs) =
    let rest = prune baseline end_second bs in
    if in_window baseline end_second b.second then b ∷ bs else rest
