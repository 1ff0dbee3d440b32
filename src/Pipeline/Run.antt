-- ===== src/Pipeline/Run.antt =====
-- The loop of `ReplayPipeline.run` over the recorded events, and what follows it. An event is what
-- `default_validate` and `classify_raw` say of it, with the outcome of the normalizer's parsing.
use deltaengine.Prelude.{
  ℕ, ◌+◌, List, [], ◌∷◌, Option, none, some, Bool, true, false, if◌then◌else◌, String, Decimal,
  count, length, Result, ok, ◌>>=◌,
}
use deltaengine.OrderBook
use deltaengine.OrderBook.{OrderBookUpdate}
use deltaengine.VolumeRef
use deltaengine.VolumeRef.{Quotient}
use deltaengine.Cvd
use deltaengine.Cvd.{Candle}
use deltaengine.Footprint
use deltaengine.Footprint.{FootprintBar}
use deltaengine.MultiTimeframe
use deltaengine.Absorption
use deltaengine.Imbalance
use deltaengine.Divergence
use deltaengine.FlowResponse.{FlowPriceResponseDetector}
use deltaengine.FlowResponse.Detector
use deltaengine.FlowResponse.Outcomes
use deltaengine.FlowResponse.Outcomes.{FlowResponseOutcomeTracker}
use deltaengine.Normalizer
use deltaengine.Normalizer.{NormalizedTrade, DataNormalizer}
use deltaengine.Pipeline.{
  Row, trade_row, candle_row, signal_row, Replay, store_candle, register_snapshots, handle_each,
}

pub data RawEvent : Type 0 where
  unusable : RawEvent
  depth_event : Result OrderBookUpdate → RawEvent
  trade_event : Result NormalizedTrade → RawEvent

-- The normalizer and the rest, and the number of invalid events.
pub record Session : Type 0 where
  pub normalizer : DataNormalizer
  pub replay : Replay
  pub invalid : ℕ

-- The settings of a pipeline; the flow response is enabled if it has settings.
pub record Settings : Type 0 where
  pub symbol : String
  pub timeframe : String
  pub has_order_book_mapping : Bool
  pub dedup_window : ℕ
  pub reorder_tolerance_ms : ℕ
  pub imbalance_ratio_threshold : Quotient
  pub imbalance_min_volume : Decimal
  pub imbalance_stack_count : ℕ
  pub absorption_window_sec : ℕ
  pub absorption_price_stall_ticks : ℕ
  pub absorption_volume_multiplier : Quotient
  pub absorption_volume_ref_bars : ℕ
  pub divergence_equal_pivot_policy : String
  pub divergence_min_price_move : Decimal
  pub divergence_min_bar_distance : ℕ
  pub flow_response_enabled : Bool
  pub flow_response_windows_sec : List ℕ
  pub flow_response_baseline_window_sec : ℕ
  pub flow_response_thresholds : Detector.Thresholds
  pub flow_response_min_trades : ℕ
  pub flow_response_outcome_horizons_sec : List ℕ

unfoldable pub new_flow :
    Settings → Result (Option (FlowPriceResponseDetector × FlowResponseOutcomeTracker))
unfolding Detector.new_detector Outcomes.new_tracker
new_flow s =
    if s.flow_response_enabled
    then (do
      detector ←
          Detector.new_detector s.flow_response_windows_sec s.flow_response_baseline_window_sec
            s.flow_response_thresholds s.flow_response_min_trades
      tracker ← Outcomes.new_tracker s.flow_response_outcome_horizons_sec
      ok (some (detector, tracker)))
    else ok none

-- The lines of `run` before its loop.
unfoldable pub new_session : Settings → Result Session
unfolding new_flow
new_session s = do
  normalizer ←
      Normalizer.new_normalizer s.has_order_book_mapping s.dedup_window s.reorder_tolerance_ms
  cvd ← Cvd.new_calculator s.symbol s.timeframe
  higher ← MultiTimeframe.new_aggregator s.symbol ("5m" ∷ "15m" ∷ [])
  divergence ←
      Divergence.new_detector s.divergence_equal_pivot_policy s.divergence_min_price_move
        s.divergence_min_bar_distance
  flow ← new_flow s
  footprint ← Footprint.new_calculator s.symbol s.timeframe
  volume_ref ← VolumeRef.new_tracker s.absorption_volume_ref_bars
  imbalance ←
      Imbalance.new_detector s.imbalance_ratio_threshold s.imbalance_min_volume
        s.imbalance_stack_count
  ok (record {
    normalizer = normalizer;
    replay = record {
      stored = [];
      flow = flow;
      flow_response = [];
      flow_response_events = [];
      flow_response_outcomes = [];
      cvd = cvd;
      higher_timeframes = higher;
      higher_timeframe_candles = [];
      footprint = footprint;
      book_state = OrderBook.new_manager s.symbol;
      volume_ref = volume_ref;
      absorption =
          Absorption.new_detector s.absorption_window_sec s.absorption_price_stall_ticks
            s.absorption_volume_multiplier;
      imbalance_detector = imbalance;
      divergence_detector = divergence;
      divergence = none;
      analysis_count = 0;
      missing_bars = 0;
      zero_volume_bars = 0;
    };
    invalid = 0;
  })

-- `book_state.apply(update)`, where there is an update.
unfoldable pub apply_update : Replay → Option OrderBookUpdate → Result Replay
unfolding OrderBook.apply
apply_update r none = ok r
apply_update r (some u) = do m ← OrderBook.apply r.book_state u; ok (record r { book_state = m.0 })

-- The body of the loop.
unfoldable pub replay_event : Session → RawEvent → Result Session
unfolding apply_update Normalizer.process Normalizer.process_depth
replay_event s unusable = ok (record s { invalid = s.invalid + 1 })
replay_event s (depth_event outcome) = do
  n ← Normalizer.process_depth s.normalizer outcome
  r ← apply_update s.replay n.1
  ok (record s { normalizer = n.0; replay = r })
replay_event s (trade_event outcome) = do
  n ← Normalizer.process s.normalizer outcome
  r ← handle_each s.replay n.1
  ok (record s { normalizer = n.0; replay = r })

unfoldable pub replay_loop : Session → List RawEvent → Result Session
unfolding replay_event
replay_loop s [] = ok s
replay_loop s (e ∷ events) = do t ← replay_event s e; replay_loop t events

-- The last snapshots.
unfoldable pub finish_flow :
    Replay → Option (FlowPriceResponseDetector × FlowResponseOutcomeTracker) → Replay
unfolding register_snapshots Detector.finalize
finish_flow r none = r
finish_flow r (some (detector, tracker)) =
    let f = Detector.finalize detector in register_snapshots r f.0 tracker f.1

-- The last candle, which `handle` has not seen.
unfoldable pub finish_candle : Replay → Option Candle → Option FootprintBar → Replay
unfolding store_candle
finish_candle r none closed = r
finish_candle r (some candle) closed = store_candle r candle closed

unfoldable pub finish : Replay → Replay
unfolding finish_flow finish_candle Cvd.finalize Footprint.finalize
finish r =
    let s = finish_flow r r.flow in
    let c = Cvd.finalize s.cvd in
    let f = Footprint.finalize s.footprint in
    finish_candle (record s { cvd = c.0; footprint = f.0 }) c.1 f.1

abbrev pub is_trade : Row → Bool
is_trade (trade_row _) = true
is_trade _ = false

abbrev pub is_candle : Row → Bool
is_candle (candle_row _) = true
is_candle _ = false

abbrev pub is_signal : Row → Bool
is_signal (signal_row _ _ _) = true
is_signal _ = false

-- `ReplayStats`; `close` has written every row that the writer was handed.
pub record ReplayStats : Type 0 where
  pub raw_events : ℕ
  pub invalid : ℕ
  pub normalized : ℕ
  pub duplicates : ℕ
  pub reordered : ℕ
  pub normalizer_rejected : ℕ
  pub trades_stored : ℕ
  pub candles_stored : ℕ
  pub signals_stored : ℕ
  pub final_cvd : Decimal
  pub analysis_count : ℕ

abbrev pub stats : List RawEvent → Session → DataNormalizer → Replay → ReplayStats
stats raws s c r = record {
  raw_events = length raws;
  invalid = s.invalid;
  normalized = c.processed;
  duplicates = c.duplicates;
  reordered = c.reordered;
  normalizer_rejected = c.rejected;
  trades_stored = count is_trade r.stored;
  candles_stored = count is_candle r.stored;
  signals_stored = count is_signal r.stored;
  final_cvd = r.cvd.cvd;
  analysis_count = r.analysis_count;
}

-- `run`, with the pipeline as it leaves it.
unfoldable pub run : Session → List RawEvent → Result (Replay × ReplayStats)
unfolding replay_loop finish Normalizer.flush
run start raws = do
  s ← replay_loop start raws
  let flushed = Normalizer.flush s.normalizer
  r ← handle_each s.replay flushed.1
  ok (finish r, stats raws s flushed.0 (finish r))
