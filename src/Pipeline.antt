-- ===== src/Pipeline.antt =====
-- The replay pipeline (src/pipeline.py, `ReplayPipeline`): what it does with one normalized trade and
-- with one closed bar, and the loop over the recorded events. The storage writer is the list of
-- the rows that it is handed, in their order; a warning of the log is a counter.
pub mod Run
pub mod Positive
pub mod Tally
pub mod Flow
pub mod Steps
pub mod Lockstep
pub mod Finish
pub mod Release
pub mod Books
pub mod Replays
pub mod Sessions
use deltaengine.Prelude.{
  ℕ, ◌+◌, List, [], ◌∷◌, ◌++◌, map, Option, none, some, Bool, true, false, if◌then◌else◌, ◌==◌,
  int_eq, string_eq, String, Decimal, pos, ◌+ℤ◌, count, length, sum_by, Dict, insert, push, Result,
  ok, raise, ◌>>=◌,
}
use deltaengine.Trades.{Time, Trade}
use deltaengine.OrderBook
use deltaengine.OrderBook.{OrderBookUpdate, OrderBookStateManager}
use deltaengine.VolumeRef
use deltaengine.VolumeRef.{Quotient, VolumeRefTracker}
use deltaengine.Cvd
use deltaengine.Cvd.{Candle, CvdCalculator}
use deltaengine.Footprint
use deltaengine.Footprint.{FootprintTrade, FootprintBar, FootprintCalculator}
use deltaengine.MultiTimeframe
use deltaengine.Absorption
use deltaengine.Absorption.{AbsorptionDetector, AbsorptionResult}
use deltaengine.Imbalance
use deltaengine.Imbalance.{ImbalanceDetector, ImbalanceResult}
use deltaengine.Divergence
use deltaengine.Divergence.{CvdDivergenceDetector, DivergenceEvent}
use deltaengine.FlowResponse.{FlowPriceResponseDetector, FlowResponseSnapshot}
use deltaengine.FlowResponse.Detector
use deltaengine.FlowResponse.Outcomes
use deltaengine.FlowResponse.Outcomes.{FlowResponseOutcomeTracker, FlowResponseOutcome}
use deltaengine.Normalizer
use deltaengine.Normalizer.{NormalizedTrade, DataNormalizer}
use deltaengine.Signals.{
  SignalResult, AnalysisResult, AnalysisInput, evaluate_signal, evaluate_analysis,
}

-- A row that the storage writer is handed.
pub data Row : Type 0 where
  trade_row : NormalizedTrade → Row
  candle_row : Candle → Row
  signal_row : Time → String → SignalResult → Row
  event_row : FlowResponseSnapshot → Row
  outcome_row : FlowResponseOutcome → Row

-- What `run` builds before its loop, but for the normalizer, and what `handle` assigns.
pub record Replay : Type 0 where
  pub stored : List Row
  pub flow : Option (FlowPriceResponseDetector × FlowResponseOutcomeTracker)
  pub flow_response : List FlowResponseSnapshot
  pub flow_response_events : List FlowResponseSnapshot
  pub flow_response_outcomes : List FlowResponseOutcome
  pub cvd : CvdCalculator
  pub higher_timeframes : Dict String CvdCalculator
  pub higher_timeframe_candles : Dict String Candle
  pub footprint : FootprintCalculator
  pub book_state : OrderBookStateManager
  pub volume_ref : VolumeRefTracker
  pub absorption : AbsorptionDetector
  pub imbalance_detector : ImbalanceDetector
  pub divergence_detector : CvdDivergenceDetector
  pub divergence : Option DivergenceEvent
  pub analysis_count : ℕ
  pub missing_bars : ℕ
  pub zero_volume_bars : ℕ

-- The same object, seen by the calculators that declare a `Trade` of their own.
abbrev pub as_trade : NormalizedTrade → Trade
as_trade t = record {
  trade_id = t.trade_id;
  event_time = t.event_time;
  symbol = t.symbol;
  price = t.price;
  quantity = t.quantity;
  side = t.side;
}

abbrev pub as_footprint_trade : NormalizedTrade → FootprintTrade
as_footprint_trade t = record {
  trade_id = t.trade_id;
  event_time = t.event_time;
  symbol = t.symbol;
  price = t.price;
  quantity = t.quantity;
  side = t.side;
}

-- `deque.extend`, for a `maxlen`.
abbrev pub extend {ℓ} : {A : Type ℓ} → ℕ → List A → List A → List A
extend maxlen xs [] = xs
extend maxlen xs (y ∷ ys) = extend maxlen (push maxlen xs y) ys

-- `_BarCloseResult`, without the detector and the scores, which are all `None`.
pub record BarCloseResult : Type 0 where
  pub analysis_result : AnalysisResult
  pub imbalance_result : ImbalanceResult
  pub signal_result : SignalResult
  pub absorption_result : Option AbsorptionResult

abbrev pub buy_total : FootprintBar → Decimal
buy_total bar = sum_by (λ l. l.buy_volume) bar.levels

abbrev pub sell_total : FootprintBar → Decimal
sell_total bar = sum_by (λ l. l.sell_volume) bar.levels

abbrev pub per_level_volumes : FootprintBar → List Decimal
per_level_volumes bar = map (λ l. l.buy_volume +ℤ l.sell_volume) bar.levels

-- `_evaluate_and_store`: the imbalances are found with the volume reference of the bars before.
unfoldable pub evaluate_and_store : Replay → Candle → FootprintBar → Replay × BarCloseResult
unfolding Imbalance.detect VolumeRef.observe_bar VolumeRef.current evaluate_analysis
evaluate_and_store r candle bar =
    let found = Imbalance.detect r.imbalance_detector (VolumeRef.current r.volume_ref) bar in
    (
      record r {
        imbalance_detector = found.0;
        zero_volume_bars =
            if buy_total bar +ℤ sell_total bar == pos 0
            then r.zero_volume_bars + 1
            else r.zero_volume_bars;
        volume_ref = VolumeRef.observe_bar r.volume_ref (per_level_volumes bar);
        stored = r.stored ++ signal_row candle.bar_time candle.symbol evaluate_signal ∷ [];
      },
      record {
        analysis_result = evaluate_analysis (record {
          analysis_time = candle.bar_time;
          symbol = candle.symbol;
          signal_result = evaluate_signal;
          cvd_delta = candle.delta;
          fp_buy_total = buy_total bar;
          fp_sell_total = sell_total bar;
          imbalance_result = some found.1;
          absorption_result = r.absorption.last_result;
        });
        imbalance_result = found.1;
        signal_result = evaluate_signal;
        absorption_result = r.absorption.last_result;
      },
    )

-- The candle is stored; its bar is evaluated, or the log has a warning that there is none.
unfoldable pub store_candle : Replay → Candle → Option FootprintBar → Replay
unfolding evaluate_and_store
store_candle r candle none = record r {
  stored = r.stored ++ candle_row candle ∷ [];
  missing_bars = r.missing_bars + 1;
}
store_candle r candle (some bar) =
    let s =
      (evaluate_and_store (record r { stored = r.stored ++ candle_row candle ∷ [] }) candle
        bar).0 in
    record s { analysis_count = s.analysis_count + 1 }

-- The end of `handle`, where a candle was closed.
unfoldable pub close_candle : Replay → Option Candle → Option FootprintBar → Replay
unfolding store_candle Divergence.update
close_candle r none closed = r
close_candle r (some candle) closed =
    let d = Divergence.update r.divergence_detector candle in
    store_candle (record r { divergence_detector = d.0; divergence = d.1 }) candle closed

-- What follows snapshots, if there are any: they are kept, and their events stored.
unfoldable pub register_snapshots :
    Replay
    → FlowPriceResponseDetector
    → FlowResponseOutcomeTracker
    → List FlowResponseSnapshot
    → Replay
register_snapshots r detector tracker [] = record r { flow = some (detector, tracker) }
register_snapshots r detector tracker (s ∷ snapshots) =
    let registered = Outcomes.register tracker (s ∷ snapshots) in
    record r {
      flow = some (detector, registered.0);
      flow_response = s ∷ snapshots;
      flow_response_events = extend 5_000 r.flow_response_events registered.1;
      stored = r.stored ++ map event_row registered.1;
    }

-- The outcomes that a trade settles.
unfoldable pub observe_outcomes :
    Replay → Option (FlowPriceResponseDetector × FlowResponseOutcomeTracker) → Trade → Replay
unfolding Outcomes.observe_trade
observe_outcomes r none t = r
observe_outcomes r (some (detector, tracker)) t =
    let observed = Outcomes.observe_trade tracker t in
    record r {
      flow = some (detector, observed.0);
      flow_response_outcomes = extend 5_000 r.flow_response_outcomes observed.1;
      stored = r.stored ++ map outcome_row observed.1;
    }

-- The part of `handle` for the flow response, if it is enabled.
unfoldable pub observe_flow :
    Replay → Option (FlowPriceResponseDetector × FlowResponseOutcomeTracker) → Trade → Result Replay
unfolding register_snapshots observe_outcomes Detector.process
observe_flow r none t = ok r
observe_flow r (some (detector, tracker)) t = do
  s ← Detector.process detector t
  let registered = register_snapshots r s.0 tracker s.1
  ok (observe_outcomes registered registered.flow t)

-- `dict.update`
abbrev pub update_candles : Dict String Candle → Dict String Candle → Dict String Candle
update_candles candles [] = candles
update_candles candles ((timeframe, k) ∷ closed) =
    update_candles (insert timeframe k candles) closed

-- The higher timeframes take the trades that the calculator has accepted.
unfoldable pub take_higher :
    Bool
    → Trade
    → Dict String CvdCalculator
    → Result (Dict String CvdCalculator × Dict String Candle)
unfolding MultiTimeframe.process_each
take_higher true t calculators = MultiTimeframe.process_each t calculators
take_higher false t calculators = ok (calculators, [])

-- `handle`, from the calculators on.
unfoldable pub count_trade : Replay → NormalizedTrade → Result Replay
unfolding take_higher close_candle
count_trade r t = do
  c ← Cvd.process r.cvd (as_trade t)
  h ← take_higher c.1.accepted (as_trade t) r.higher_timeframes
  f ← Footprint.process_trade r.footprint (as_footprint_trade t)
  a ←
      Absorption.observe_trade r.absorption (OrderBook.snapshot r.book_state)
        (VolumeRef.current r.volume_ref) (as_trade t)
  ok (
      close_candle
        (record r {
          cvd = c.0;
          higher_timeframes = h.0;
          higher_timeframe_candles = update_candles r.higher_timeframe_candles h.1;
          footprint = f.0;
          absorption = a;
        })
        c.1.closed_candle f.1)

-- `handle`
unfoldable pub handle : Replay → NormalizedTrade → Result Replay
unfolding observe_flow count_trade
handle r t = do
  o ← observe_flow (record r { stored = r.stored ++ trade_row t ∷ [] }) r.flow (as_trade t)
  count_trade o t

-- The loop over the trades that the normalizer has released.
unfoldable pub handle_each : Replay → List NormalizedTrade → Result Replay
unfolding handle
handle_each r [] = ok r
handle_each r (t ∷ trades) = do s ← handle r t; handle_each s trades
