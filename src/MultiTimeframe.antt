-- ===== src/MultiTimeframe.antt =====
-- One stream of trades into a candle calculator per timeframe (src/orderflow/multi_timeframe.py).
pub mod Lockstep
use deltaengine.Prelude.{
  List, [], ◌∷◌, Option, none, some, Bool, true, false, not, ◌||◌, if◌then◌else◌, ◌==◌, string_eq,
  String, contains, Dict, Result, ok, raise, value_error, ◌>>=◌,
}
use deltaengine.Trades.{Trade}
use deltaengine.Cvd.{
  Candle, CvdCalculator, CvdResult, new_calculator, process, current_bar_snapshot,
}

-- `dict.fromkeys`: each timeframe once, at its first place.
unfoldable pub unique_from : List String → List String → List String
unique_from seen [] = []
unique_from seen (t ∷ ts) =
    let rest = unique_from (t ∷ seen) ts in
    let others = unique_from seen ts in if contains seen t then others else t ∷ rest

-- The calculators, one for each timeframe.
unfoldable pub calculators_for : String → List String → Result (Dict String CvdCalculator)
calculators_for symbol [] = ok []
calculators_for symbol (t ∷ ts) = do
  c ← new_calculator symbol t
  rest ← calculators_for symbol ts
  ok ((t, c) ∷ rest)

-- `MultiTimeframeCandleAggregator.__init__`
unfoldable pub new_aggregator : String → List String → Result (Dict String CvdCalculator)
unfolding unique_from calculators_for
new_aggregator symbol [] = raise value_error
new_aggregator symbol (t ∷ ts) = calculators_for symbol (unique_from [] (t ∷ ts))

-- `closed[timeframe] = result.closed_candle`, where a candle was closed.
abbrev pub add_closed : String → Option Candle → Dict String Candle → Dict String Candle
add_closed timeframe none closed = closed
add_closed timeframe (some k) closed = (timeframe, k) ∷ closed

-- The loop of `process`: a calculator that rejects the trade raises.
unfoldable pub process_each :
    Trade → Dict String CvdCalculator → Result (Dict String CvdCalculator × Dict String Candle)
process_each trade [] = ok ([], [])
process_each trade ((timeframe, c) ∷ calculators) = do
  r ← process c trade
  rest ← (if r.1.accepted then process_each trade calculators else raise value_error)
  ok ((timeframe, r.0) ∷ rest.0, add_closed timeframe r.1.closed_candle rest.1)

-- `snapshots`
unfoldable pub snapshots : Dict String CvdCalculator → Dict String Candle
unfolding current_bar_snapshot
snapshots [] = []
snapshots ((timeframe, c) ∷ calculators) =
    add_closed timeframe (current_bar_snapshot c) (snapshots calculators)
