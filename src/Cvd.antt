-- ===== src/Cvd.antt =====
-- The cumulative volume delta calculator (src/orderflow/cvd.py): trades are guarded, summed into
-- the running CVD and gathered into bars, and a run folds a whole sequence.
pub mod BarTime
pub mod Process
pub mod Run
pub mod Candles
use deltaengine.Prelude.{
  ℕ, ◌+◌, ◌-◌, ◌*◌, ◌/◌, ◌%◌, List, [], ◌∷◌, ◌++◌, Option, none, some, Bool, true, false, not, ◌&&◌,
  String, Decimal, ℤ, pos, ◌+ℤ◌, ◌-ℤ◌, ltb_ℤ, ltb, if◌then◌else◌, ◌==◌, nat_eq, string_eq, contains,
  is_some, Result, ok, raise, value_error, ◌>>=◌,
}
use deltaengine.Trades.{
  Time, TradeSide, buy, sell, other, is_valid_side, ErrorCode, invalid_trade, duplicate_trade,
  out_of_order, Trade, is_earlier,
}

-- `_TIMEFRAME_SECONDS.get(timeframe)`
unfoldable pub timeframe_seconds : String → Option ℕ
timeframe_seconds t =
    if t == "1s"
    then some 1
    else if t == "1m"
    then some 60
    else if t == "5m"
    then some 300
    else if t == "15m"
    then some 900
    else if t == "1h"
    then some 3600
    else if t == "4h"
    then some 14400
    else if t == "1d"
    then some 86400
    else none

pub record CvdUpdate : Type 0 where
  pub event_time : Time
  pub symbol : String
  pub tick_delta : Decimal
  pub tick_cvd : Decimal

pub record Candle : Type 0 where
  pub bar_time : Time
  pub symbol : String
  pub timeframe : String
  pub opening : Decimal
  pub high : Decimal
  pub low : Decimal
  pub close : Decimal
  pub volume : Decimal
  pub delta : Decimal
  pub cvd : Decimal

-- The text of the reason is for the log, and left out.
pub record Rejection : Type 0 where
  pub trade_id : ℕ
  pub code : ErrorCode

pub record CvdResult : Type 0 where
  pub accepted : Bool
  pub update : Option CvdUpdate
  pub closed_candle : Option Candle
  pub rejection : Option Rejection

unfoldable pub trade_delta : TradeSide → Decimal → Result Decimal
trade_delta buy q = ok q
trade_delta sell q = ok (pos 0 -ℤ q)
trade_delta (other s) q = raise value_error

-- `epoch - epoch % seconds`, between times in microseconds.
unfoldable pub floor_to : ℕ → Time → Time
floor_to seconds t = let epoch = t / 1_000_000 in (epoch - epoch % seconds) * 1_000_000

unfoldable pub bar_start : Time → String → Result Time
bar_start t timeframe = elim (timeframe_seconds timeframe) [
  | none ↦ raise value_error
  | some seconds ↦ ok (floor_to seconds t)
]

pub record BarAccumulator : Type 0 where
  pub bar_time : Time
  pub opening : Decimal
  pub high : Decimal
  pub low : Decimal
  pub close : Decimal
  pub volume : Decimal
  pub delta : Decimal
  pub cvd : Decimal

-- `_BarAccumulator.__init__`
unfoldable pub new_bar : Time → Decimal → BarAccumulator
new_bar start price = record {
  bar_time = start;
  opening = price;
  high = price;
  low = price;
  close = price;
  volume = pos 0;
  delta = pos 0;
  cvd = pos 0;
}

-- `_BarAccumulator.add`
unfoldable pub add : BarAccumulator → Decimal → Decimal → Decimal → Decimal → BarAccumulator
add b price quantity delta cvd = record b {
  high = if ltb_ℤ b.high price then price else b.high;
  low = if ltb_ℤ price b.low then price else b.low;
  close = price;
  volume = b.volume +ℤ quantity;
  delta = b.delta +ℤ delta;
  cvd = cvd;
}

-- `_BarAccumulator.to_candle`
unfoldable pub to_candle : BarAccumulator → String → String → Candle
to_candle b s tf = record {
  bar_time = b.bar_time;
  symbol = s;
  timeframe = tf;
  opening = b.opening;
  high = b.high;
  low = b.low;
  close = b.close;
  volume = b.volume;
  delta = b.delta;
  cvd = b.cvd;
}

pub record CvdCalculator : Type 0 where
  pub symbol : String
  pub timeframe : String
  pub cvd : Decimal
  pub last_event_time : Option Time
  pub seen_ids : List ℕ
  pub bar : Option BarAccumulator
  pub processed : ℕ
  pub duplicates : ℕ
  pub rejected_invalid : ℕ
  pub rejected_out_of_order : ℕ

-- `CvdCalculator.__init__`
abbrev pub initial : String → String → CvdCalculator
initial s tf = record {
  symbol = s;
  timeframe = tf;
  cvd = pos 0;
  last_event_time = none;
  seen_ids = [];
  bar = none;
  processed = 0;
  duplicates = 0;
  rejected_invalid = 0;
  rejected_out_of_order = 0;
}

unfoldable pub new_calculator : String → String → Result CvdCalculator
new_calculator s tf = elim (timeframe_seconds tf) [
  | none ↦ raise value_error
  | some seconds ↦ ok (initial s tf)
]

-- `_reject`
abbrev pub reject : Trade → ErrorCode → CvdResult
reject t code = record {
  accepted = false;
  update = none;
  closed_candle = none;
  rejection = some (record { trade_id = t.trade_id; code = code });
}

-- The bar that the trade is added to, and the bar that it closes: the branches of `_update_bar`.
unfoldable pub roll_bar :
    Option BarAccumulator → Time → Decimal → BarAccumulator × Option BarAccumulator
unfolding new_bar
roll_bar none start price = (new_bar start price, none)
roll_bar (some b) start price =
    if ltb b.bar_time start then (new_bar start price, some b) else (b, none)

-- `closed.to_candle(…)`, where a bar was closed.
unfoldable pub closed_candle_of : Option BarAccumulator → String → String → Option Candle
unfolding to_candle
closed_candle_of none s tf = none
closed_candle_of (some b) s tf = some (to_candle b s tf)

-- The state and the result of an accepted trade, from its delta and the start of its bar.
unfoldable pub advance : CvdCalculator → Trade → Decimal → Time → CvdCalculator × CvdResult
unfolding add roll_bar closed_candle_of
advance c t delta start =
    let cvd = c.cvd +ℤ delta in
    let rolled = roll_bar c.bar start t.price in
    (
      record c {
        cvd = cvd;
        seen_ids = t.trade_id ∷ c.seen_ids;
        last_event_time = some t.event_time;
        processed = c.processed + 1;
        bar = some (add rolled.0 t.price t.quantity delta cvd);
      },
      record {
        accepted = true;
        update = some (record {
          event_time = t.event_time;
          symbol = c.symbol;
          tick_delta = delta;
          tick_cvd = cvd;
        });
        closed_candle = closed_candle_of rolled.1 c.symbol c.timeframe;
        rejection = none;
      },
    )

-- The part of `process` behind the guards, with `_update_bar`.
unfoldable pub accept : CvdCalculator → Trade → Result (CvdCalculator × CvdResult)
unfolding trade_delta advance
accept c t = do
  delta ← trade_delta t.side t.quantity
  start ← bar_start t.event_time c.timeframe
  ok (advance c t delta start)

unfoldable pub process : CvdCalculator → Trade → Result (CvdCalculator × CvdResult)
process c t =
    if not (is_valid_side t.side)
    then ok (record c { rejected_invalid = c.rejected_invalid + 1 }, reject t invalid_trade)
    else if contains c.seen_ids t.trade_id
    then ok (record c { duplicates = c.duplicates + 1 }, reject t duplicate_trade)
    else if is_earlier t.event_time c.last_event_time
    then ok
        (record c { rejected_out_of_order = c.rejected_out_of_order + 1 }, reject t out_of_order)
    else accept c t

-- `current_bar_snapshot`
unfoldable pub current_bar_snapshot : CvdCalculator → Option Candle
unfolding closed_candle_of
current_bar_snapshot c = closed_candle_of c.bar c.symbol c.timeframe

unfoldable pub finalize : CvdCalculator → CvdCalculator × Option Candle
unfolding closed_candle_of
finalize c = (record c { bar = none }, closed_candle_of c.bar c.symbol c.timeframe)

pub record CvdRun : Type 0 where
  pub updates : List CvdUpdate
  pub candles : List Candle
  pub rejections : List Rejection
  pub final_cvd : Decimal
  pub processed : ℕ
  pub duplicates : ℕ
  pub rejected_invalid : ℕ
  pub rejected_out_of_order : ℕ

-- The lists that `run` appends to.
pub record Outputs : Type 0 where
  pub updates : List CvdUpdate
  pub candles : List Candle
  pub rejections : List Rejection

-- `xs.append(x)`, where there is one.
abbrev pub append? {ℓ} : {A : Type ℓ} → List A → Option A → List A
append? xs none = xs
append? xs (some x) = xs ++ x ∷ []

-- The body of the loop of `run`.
unfoldable pub collect : Outputs → CvdResult → Outputs
collect o r =
    let candles = append? o.candles r.closed_candle in
    if r.accepted && is_some r.update
    then record o { candles = candles; updates = append? o.updates r.update }
    else record o { candles = candles; rejections = append? o.rejections r.rejection }

unfoldable pub run_loop : CvdCalculator → Outputs → List Trade → Result (CvdCalculator × Outputs)
run_loop c o [] = ok (c, o)
run_loop c o (t ∷ trades) = do r ← process c t; run_loop r.0 (collect o r.1) trades

-- The end of `run`: the last open bar becomes a candle, and the result is gathered.
unfoldable pub gather : CvdCalculator × Outputs → CvdRun
unfolding finalize
gather r =
    let f = finalize r.0 in
    record {
      updates = r.1.updates;
      candles = append? r.1.candles f.1;
      rejections = r.1.rejections;
      final_cvd = f.0.cvd;
      processed = f.0.processed;
      duplicates = f.0.duplicates;
      rejected_invalid = f.0.rejected_invalid;
      rejected_out_of_order = f.0.rejected_out_of_order;
    }

unfoldable pub run : List Trade → String → String → Result CvdRun
unfolding new_calculator run_loop gather
run trades s tf = do
  calc ← new_calculator s tf
  r ← run_loop calc (record { updates = []; candles = []; rejections = [] }) trades
  ok (gather r)
