-- ===== src/Divergence.antt =====
-- The divergence detector (src/orderflow/divergence.py): swing pivots of closed candles, and regular
-- divergence between the price and the CVD of the latest two pivots of a kind.
pub mod Pivots
pub mod History
pub mod Events
pub mod Runs
use deltaengine.Prelude.{
  ℕ, ◌+◌, ◌-◌, List, [], ◌∷◌, Option, none, some, Bool, true, false, not, ◌&&◌, ◌||◌, String,
  Decimal, ℤ, pos, ◌-ℤ◌, ltb, leb, ltb_ℤ, leb_ℤ, if◌then◌else◌, ◌==◌, nat_eq, string_eq, push,
  Result, ok, raise, value_error,
}
use deltaengine.Trades.{Time}
use deltaengine.Cvd.{Candle}

pub data DivergenceDirection : Type 0 where
  bullish bearish : DivergenceDirection

-- Its kind is always REGULAR, and left out.
pub record DivergenceEvent : Type 0 where
  pub direction : DivergenceDirection
  pub symbol : String
  pub timeframe : String
  pub detected_time : Option Time
  pub pivot_time : Time
  pub previous_pivot_time : Time
  pub pivot_price : Decimal
  pub previous_pivot_price : Decimal
  pub pivot_cvd : Decimal
  pub previous_pivot_cvd : Decimal
  pub price_change : Decimal
  pub cvd_change : Decimal
  pub bars_between : ℤ

pub record CvdDivergenceDetector : Type 0 where
  pub min_price_move : Decimal
  pub min_bar_distance : ℕ
  pub candles : List Candle
  pub last_low : Option (Candle × ℤ)
  pub last_high : Option (Candle × ℤ)
  pub symbol : Option String
  pub timeframe : Option String
  pub last_time : Option Time
  pub bar_index : ℕ
  pub candles_in : ℕ
  pub pivots_low : ℕ
  pub pivots_high : ℕ
  pub events_detected : ℕ
  pub rejected_out_of_order : ℕ
  pub rejected_symbol_mismatch : ℕ
  pub rejected_timeframe_mismatch : ℕ
  pub rejected_min_price_move : ℕ
  pub rejected_min_bar_distance : ℕ

abbrev pub initial : Decimal → ℕ → CvdDivergenceDetector
initial move distance = record {
  min_price_move = move;
  min_bar_distance = distance;
  candles = [];
  last_low = none;
  last_high = none;
  symbol = none;
  timeframe = none;
  last_time = none;
  bar_index = 0;
  candles_in = 0;
  pivots_low = 0;
  pivots_high = 0;
  events_detected = 0;
  rejected_out_of_order = 0;
  rejected_symbol_mismatch = 0;
  rejected_timeframe_mismatch = 0;
  rejected_min_price_move = 0;
  rejected_min_bar_distance = 0;
}

-- `CvdDivergenceDetector.__init__`; the distance is a natural number.
unfoldable pub new_detector : String → Decimal → ℕ → Result CvdDivergenceDetector
new_detector policy move distance =
    if not (policy == "first")
    then raise value_error
    else if ltb_ℤ move (pos 0)
    then raise value_error
    else ok (initial move distance)

abbrev pub price_of : DivergenceDirection → Candle → Decimal
price_of bullish k = k.low
price_of bearish k = k.high

abbrev pub abs : Decimal → Decimal
abs x = if ltb_ℤ x (pos 0) then pos 0 -ℤ x else x

-- The signs of the two changes are opposite, as the direction has them.
abbrev pub is_regular : DivergenceDirection → Decimal → Decimal → Bool
is_regular bullish price cvd = ltb_ℤ price (pos 0) && ltb_ℤ (pos 0) cvd
is_regular bearish price cvd = ltb_ℤ (pos 0) price && ltb_ℤ cvd (pos 0)

-- The part of `_evaluate` for a previous pivot.
unfoldable pub compare_pivots :
    CvdDivergenceDetector
    → DivergenceDirection
    → Candle
    → ℤ
    → Candle
    → ℤ
    → CvdDivergenceDetector × Option DivergenceEvent
compare_pivots d direction pivot index previous previous_index =
    let price = price_of direction pivot in
    let previous_price = price_of direction previous in
    let price_change = price -ℤ previous_price in
    let cvd_change = pivot.cvd -ℤ previous.cvd in
    let bars_between = index -ℤ previous_index in
    if not (is_regular direction price_change cvd_change)
    then (d, none)
    else if ltb_ℤ (abs price_change) d.min_price_move
    then (record d { rejected_min_price_move = d.rejected_min_price_move + 1 }, none)
    else if ltb_ℤ bars_between (pos d.min_bar_distance)
    then (record d { rejected_min_bar_distance = d.rejected_min_bar_distance + 1 }, none)
    else (
      record d { events_detected = d.events_detected + 1 },
      some (record {
        direction = direction;
        symbol = pivot.symbol;
        timeframe = pivot.timeframe;
        detected_time = d.last_time;
        pivot_time = pivot.bar_time;
        previous_pivot_time = previous.bar_time;
        pivot_price = price;
        previous_pivot_price = previous_price;
        pivot_cvd = pivot.cvd;
        previous_pivot_cvd = previous.cvd;
        price_change = price_change;
        cvd_change = cvd_change;
        bars_between = bars_between;
      }),
    )

-- `_evaluate`
unfoldable pub evaluate :
    CvdDivergenceDetector
    → DivergenceDirection
    → Candle
    → ℤ
    → Option (Candle × ℤ)
    → CvdDivergenceDetector × Option DivergenceEvent
unfolding compare_pivots
evaluate d direction pivot index none = (d, none)
evaluate d direction pivot index (some (previous, previous_index)) =
    compare_pivots d direction pivot index previous previous_index

abbrev pub is_swing_low : Candle → Candle → Candle → Bool
is_swing_low left pivot right = ltb_ℤ pivot.low left.low && leb_ℤ pivot.low right.low

abbrev pub is_swing_high : Candle → Candle → Candle → Bool
is_swing_high left pivot right = ltb_ℤ left.high pivot.high && leb_ℤ right.high pivot.high

-- The test for a swing low, and what follows one.
unfoldable pub check_low :
    CvdDivergenceDetector
    → Candle
    → Candle
    → Candle
    → ℤ
    → CvdDivergenceDetector × Option DivergenceEvent
unfolding evaluate
check_low d left pivot right index =
    let (d', event) =
      evaluate (record d { pivots_low = d.pivots_low + 1 }) bullish pivot index d.last_low in
    if is_swing_low left pivot right
    then (record d' { last_low = some (pivot, index) }, event)
    else (d, none)

unfoldable pub check_high :
    CvdDivergenceDetector
    → Candle
    → Candle
    → Candle
    → ℤ
    → CvdDivergenceDetector × Option DivergenceEvent
unfolding evaluate
check_high d left pivot right index =
    let (d', event) =
      evaluate (record d { pivots_high = d.pivots_high + 1 }) bearish pivot index d.last_high in
    if is_swing_high left pivot right
    then (record d' { last_high = some (pivot, index) }, event)
    else (d, none)

-- The two tests in turn: an event of the first ends the call.
unfoldable pub check_pivots :
    CvdDivergenceDetector
    → Candle
    → Candle
    → Candle
    → ℤ
    → CvdDivergenceDetector × Option DivergenceEvent
unfolding check_low check_high
check_pivots d left pivot right index =
    let (d', event) = check_low d left pivot right index in
    elim event [ some e ↦ (d', some e) | none ↦ check_high d' left pivot right index ]

-- `update` behind its guards.
unfoldable pub accept : CvdDivergenceDetector → Candle → CvdDivergenceDetector
accept d k = record d {
  symbol = elim d.symbol [ none ↦ some k.symbol | some s ↦ some s ];
  timeframe = elim d.symbol [ none ↦ some k.timeframe | some s ↦ d.timeframe ];
  last_time = some k.bar_time;
  candles_in = d.candles_in + 1;
  candles = push 3 d.candles k;
  bar_index = d.bar_index + 1;
}

-- Three candles make a pivot of the middle one, whose index is one less than the last one's.
unfoldable pub detect :
    CvdDivergenceDetector → List Candle → ℤ → CvdDivergenceDetector × Option DivergenceEvent
unfolding check_pivots
detect d (left ∷ pivot ∷ right ∷ []) index = check_pivots d left pivot right (index -ℤ pos 1)
detect d _ index = (d, none)

abbrev pub is_late : Option Time → Time → Bool
is_late none t = false
is_late (some last) t = leb t last

abbrev pub is_other : Option String → String → Bool
is_other none s = false
is_other (some known) s = not (s == known)

unfoldable pub update :
    CvdDivergenceDetector → Candle → CvdDivergenceDetector × Option DivergenceEvent
unfolding accept detect
update d k =
    if is_late d.last_time k.bar_time
    then (record d { rejected_out_of_order = d.rejected_out_of_order + 1 }, none)
    else if is_other d.symbol k.symbol
    then (record d { rejected_symbol_mismatch = d.rejected_symbol_mismatch + 1 }, none)
    else if is_other d.timeframe k.timeframe
    then (record d { rejected_timeframe_mismatch = d.rejected_timeframe_mismatch + 1 }, none)
    else detect (accept d k) (accept d k).candles (pos d.bar_index)
