-- ===== src/Tape.antt =====
-- The tape analyzer (src/orderflow/flow_detector.py, `TapeAnalyzer`): the trades of the last
-- milliseconds, and an event at most once per interval. Times in milliseconds are exact, where
-- Python passes through a float, and quotients are kept as pairs.
pub mod Intervals
use deltaengine.Prelude.{
  ℕ, ◌+◌, ◌-◌, ◌*◌, ◌/◌, List, [], ◌∷◌, ◌++◌, Option, none, some, Bool, true, false, Decimal, ℤ,
  pos, pos_part, neg_part, ◌+ℤ◌, ◌-ℤ◌, ◌*ℤ◌, ltb, ltb_ℤ, leb_ℤ, if◌then◌else◌, ◌==◌, nat_eq,
  string_eq, length,
}
use deltaengine.Trades.{Time, TradeSide, buy, sell, other, is_buy, Trade}
use deltaengine.VolumeRef.{Quotient}

-- `(epoch_ms, side, qty)`
pub record Entry : Type 0 where
  pub ms : ℕ
  pub side : TradeSide
  pub quantity : Decimal

-- `side` of an event: "BUY", "SELL" or "NEUTRAL".
pub data Aggression : Type 0 where
  buying selling neutral : Aggression

-- `trades_per_sec` is the number of trades over the window.
pub record TapeEvent : Type 0 where
  pub event_time : Time
  pub side : Aggression
  pub price : Decimal
  pub strength : Quotient
  pub trades : ℕ
  pub max_consecutive_side : ℕ
  pub pause_ms : ℤ
  pub aggression_ratio : Quotient
  pub paused : Bool

pub record TapeAnalyzer : Type 0 where
  pub window_ms : ℕ
  pub emit_interval_ms : ℕ
  pub pause_threshold_ms : ℕ
  pub buy_threshold : Quotient
  pub sell_threshold : Quotient
  pub buffer : List Entry
  pub last_emit_ms : ℕ
  pub last_trade_ms : ℕ

-- `TapeAnalyzer.__init__`
unfoldable pub new_analyzer : ℕ → ℕ → ℕ → Quotient → Quotient → TapeAnalyzer
new_analyzer window interval pause buy_threshold sell_threshold = record {
  window_ms = window;
  emit_interval_ms = interval;
  pause_threshold_ms = pause;
  buy_threshold = buy_threshold;
  sell_threshold = sell_threshold;
  buffer = [];
  last_emit_ms = 0;
  last_trade_ms = 0;
}

-- `_prune`
unfoldable pub prune : ℕ → ℕ → List Entry → List Entry
prune window now [] = []
prune window now (e ∷ es) =
    let rest = prune window now es in if ltb (e.ms + window) now then rest else e ∷ es

-- `side == cur_side`
abbrev pub is_same : Option TradeSide → TradeSide → Bool
is_same none s = false
is_same (some buy) buy = true
is_same (some sell) sell = true
is_same (some (other r)) (other s) = r == s
is_same (some _) _ = false

-- The loop for the most trades of one side in a row.
unfoldable pub longest : Option TradeSide → ℕ → ℕ → List Entry → ℕ
longest side count most [] = most
longest side count most (e ∷ es) =
    let now = if is_same side e.side then count + 1 else 1 in
    longest (some e.side) now (if ltb most now then now else most) es

unfoldable pub volume : List Entry → Decimal
volume [] = pos 0
volume (e ∷ es) = e.quantity +ℤ volume es

unfoldable pub buy_volume : List Entry → Decimal
buy_volume [] = pos 0
buy_volume (e ∷ es) = (if is_buy e.side then e.quantity else pos 0) +ℤ buy_volume es

-- `buy_vol / total_vol`, or a half where there is no volume.
abbrev pub ratio_of : Decimal → Decimal → Quotient
ratio_of bought total =
    if ltb_ℤ (pos 0) total
    then record { numerator = bought; denominator = pos_part total }
    else record { numerator = pos 1; denominator = 2 }

-- `_clamp(abs(ratio - 0.5) * 2)`
abbrev pub strength_of : Quotient → Quotient
strength_of q =
    let twice = pos 2 *ℤ q.numerator -ℤ pos q.denominator in
    let size = pos_part twice + neg_part twice in
    record {
      numerator = pos (if ltb q.denominator size then q.denominator else size);
      denominator = q.denominator;
    }

-- `a >= b`, for denominators that are positive.
abbrev pub at_least : Quotient → Quotient → Bool
at_least a b = leb_ℤ (b.numerator *ℤ pos a.denominator) (a.numerator *ℤ pos b.denominator)

abbrev pub side_of : TapeAnalyzer → Quotient → Aggression
side_of a q =
    if at_least q a.buy_threshold
    then buying
    else if at_least a.sell_threshold q
    then selling
    else neutral

-- `now_ms - prev_trade_ms if prev_trade_ms else 0`
abbrev pub pause_of : ℕ → ℕ → ℤ
pause_of now previous = if previous == 0 then pos 0 else pos now -ℤ pos previous

-- `_emit`
unfoldable pub emit : TapeAnalyzer → Trade → ℕ → ℕ → TapeAnalyzer × TapeEvent
unfolding longest volume buy_volume
emit a t now previous =
    let ratio = ratio_of (buy_volume a.buffer) (volume a.buffer) in
    (
      record a { last_emit_ms = now },
      record {
        event_time = t.event_time;
        side = side_of a ratio;
        price = t.price;
        strength = strength_of ratio;
        trades = length a.buffer;
        max_consecutive_side = longest none 0 0 a.buffer;
        pause_ms = pause_of now previous;
        aggression_ratio = ratio;
        paused = ltb_ℤ (pos a.pause_threshold_ms) (pause_of now previous);
      },
    )

-- `_epoch_ms`
abbrev pub epoch_ms : Time → ℕ
epoch_ms t = t / 1_000

unfoldable pub process : TapeAnalyzer → Trade → TapeAnalyzer × Option TapeEvent
unfolding prune emit
process a t =
    let now = epoch_ms t.event_time in
    let entry : Entry = record { ms = now; side = t.side; quantity = t.quantity } in
    let kept = record a {
      buffer = prune a.window_ms now (a.buffer ++ entry ∷ []);
      last_trade_ms = now;
    } in
    let e = emit kept t now a.last_trade_ms in
    if ltb now (a.last_emit_ms + a.emit_interval_ms) then (kept, none) else (e.0, some e.1)
