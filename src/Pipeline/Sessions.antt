-- ===== src/Pipeline/Sessions.antt =====
-- A replay from its settings to its result.
use deltaengine.Prelude.{
  ℕ, ◌*◌, ◌≤◌, List, [], ◌∷◌, none, some, Bool, String, pos, ◌<ℤ◌, length, All, Result, OfOk,
  OfOk-bind, OfOk-eq, ok, raise, Returns, ◌≡◌, refl, on_if, arith, int_laws,
}
use deltaengine.Trades.{Time}
use deltaengine.OrderBook
use deltaengine.OrderBook.{OrderBookUpdate, OrderBookStateManager}
use deltaengine.OrderBook.Apply
use deltaengine.VolumeRef
use deltaengine.Cvd.{timeframe_seconds}
use deltaengine.Cvd
use deltaengine.Cvd.Run.{initial-IsValid}
use deltaengine.Footprint
use deltaengine.MultiTimeframe
use deltaengine.MultiTimeframe.Lockstep
use deltaengine.MultiTimeframe.Lockstep.{AreInStep}
use deltaengine.Absorption
use deltaengine.Imbalance
use deltaengine.Divergence
use deltaengine.FlowResponse.Detector
use deltaengine.FlowResponse.Outcomes
use deltaengine.Normalizer
use deltaengine.Normalizer.{NormalizedTrade, DataNormalizer}
use deltaengine.Normalizer.Process
use deltaengine.Pipeline.{Replay}
use deltaengine.Pipeline.Run.{RawEvent, Session, Settings, new_flow, new_session, run}
use deltaengine.Pipeline.Flow.{FitsSymbol}
use deltaengine.Pipeline.Steps.{IsRunning}
use deltaengine.Pipeline.Finish.{IsComplete}
use deltaengine.Pipeline.Release.{IsSupplied}
use deltaengine.Pipeline.Books.{IsGoodEvent}
use deltaengine.Pipeline.Replays.{IsAt, replay-IsComplete}

new_detector_symbol :
    (windows : List ℕ) (baseline : ℕ) (t : Detector.Thresholds) (min_trades : ℕ)
    → OfOk (λ d. d.symbol ≡ none) (Detector.new_detector windows baseline t min_trades)
unfolding Detector.new_detector
new_detector_symbol windows baseline t min_trades = ground arith

anything : {A : Type 0} (m : Result A) → OfOk (λ _. Unit) m
anything (ok a) = tt
anything (raise e) = tt

new_flow-FitsSymbol : (symbol : String) (s : Settings) → OfOk (FitsSymbol symbol) (new_flow s)
unfolding new_flow
new_flow-FitsSymbol symbol s =
    on_if (OfOk (FitsSymbol symbol)) s.flow_response_enabled _ _
      (λ _.
        OfOk-bind (λ d. d.symbol ≡ none) (FitsSymbol symbol)
          (Detector.new_detector s.flow_response_windows_sec s.flow_response_baseline_window_sec
            s.flow_response_thresholds s.flow_response_min_trades)
          _
          (new_detector_symbol s.flow_response_windows_sec s.flow_response_baseline_window_sec
            s.flow_response_thresholds s.flow_response_min_trades)
          (λ d e.
            OfOk-bind (λ _. Unit) (FitsSymbol symbol)
              (Outcomes.new_tracker s.flow_response_outcome_horizons_sec) _
              (anything (Outcomes.new_tracker s.flow_response_outcome_horizons_sec)) (λ k _. rw e)))
      (λ _. tt)

new_normalizer-initial :
    (mapping : Bool) (window tolerance_ms : ℕ)
    → OfOk
        (λ c. c ≡ Normalizer.initial mapping window (tolerance_ms * 1_000))
        (Normalizer.new_normalizer mapping window tolerance_ms)
unfolding Normalizer.new_normalizer
new_normalizer-initial mapping window tolerance_ms = ground arith

cvd_initial :
    (symbol timeframe : String)
    → OfOk (λ c. c ≡ Cvd.initial symbol timeframe) (Cvd.new_calculator symbol timeframe)
unfolding Cvd.new_calculator
cvd_initial symbol timeframe = ground arith

footprint_initial :
    (symbol timeframe : String)
    → OfOk (λ c. c ≡ Footprint.initial symbol timeframe) (Footprint.new_calculator symbol timeframe)
unfolding Footprint.new_calculator
footprint_initial symbol timeframe = ground arith

new_tracker_empty : (bars : ℕ) → OfOk (λ v. v.window ≡ []) (VolumeRef.new_tracker bars)
unfolding VolumeRef.new_tracker
new_tracker_empty bars = ground arith

-- A calculator that has taken no trade.
initial-IsAt :
    (symbol timeframe : String) (n : ℕ)
    → timeframe_seconds timeframe ≡ some n
    → Lockstep.IsAt [] none (pos 0) (timeframe, Cvd.initial symbol timeframe)
initial-IsAt symbol timeframe n known = record {
  seconds = n;
  valid = initial-IsValid n symbol timeframe known;
  seen_ids = refl;
  last_event_time = refl;
  same_cvd = refl;
}

aggregator-AreInStep :
    (symbol : String)
    → OfOk (AreInStep [] none (pos 0)) (MultiTimeframe.new_aggregator symbol ("5m" ∷ "15m" ∷ []))
unfolding MultiTimeframe.new_aggregator MultiTimeframe.unique_from MultiTimeframe.calculators_for
    Cvd.new_calculator timeframe_seconds
aggregator-AreInStep symbol =
    (initial-IsAt symbol "5m" 300 refl, (initial-IsAt symbol "15m" 900 refl, tt))

new_manager_symbol : (symbol : String) → (OrderBook.new_manager symbol).symbol ≡ symbol
unfolding OrderBook.new_manager
new_manager_symbol symbol = refl

-- The replay of a new session.
fresh-IsRunning :
    (s : Settings) (n : ℕ) (r : Replay)
    → timeframe_seconds s.timeframe ≡ some n
    → r.cvd ≡ Cvd.initial s.symbol s.timeframe
    → r.footprint ≡ Footprint.initial s.symbol s.timeframe
    → AreInStep [] none (pos 0) r.higher_timeframes
    → FitsSymbol s.symbol r.flow
    → r.book_state ≡ OrderBook.new_manager s.symbol
    → r.volume_ref.window ≡ []
    → pos 0 <ℤ r.absorption.volume_multiplier.numerator
    → (r.stored ≡ []) × (r.analysis_count ≡ 0) × (r.missing_bars ≡ 0) × (r.zero_volume_bars ≡ 0)
    → IsRunning s.symbol n 0 [] none none r
fresh-IsRunning s n r known c f higher fits book window multiplier
      (stored, analyses, missing, zero) =
    record {
      ready = record {
        cvd = rw c (initial-IsValid n s.symbol s.timeframe known);
        cvd_seen = rw c refl;
        cvd_last = rw c refl;
        known = rw f known;
        footprint_seen = rw f refl;
        together = rw (c, f) tt;
        filled = rw f tt;
        higher = rw c higher;
        fits = fits;
        book = rw book (Apply.new_manager-IsValid s.symbol, new_manager_symbol s.symbol);
        reference = rw window tt;
        multiplier = multiplier;
        no_missing_bar = missing;
        no_zero_volume = zero;
      };
      tallied =
          rw (c, stored, analyses)
            (record {
              trade_rows = refl;
              candle_rows = refl;
              signal_rows = refl;
              volume = omega int_laws;
              delta = omega int_laws;
              cvd = refl;
            });
    }

initial-IsSupplied :
    (symbol : String) (room : ℕ) (mapping : Bool) (window : ℕ) (tolerance : Time)
    → room ≤ window
    → IsSupplied symbol room (Normalizer.initial mapping window tolerance) []
initial-IsSupplied symbol room mapping window tolerance fits = record {
  running = record {
    valid = Process.initial-IsValid mapping window tolerance;
    ascending = tt;
    end = refl;
  };
  fresh = λ k. record {
    valid = Process.initial-IsValid mapping window tolerance;
    fits = omega arith;
    once = refl;
  };
  fit = refl;
  produced = refl;
}

new_session-IsAt :
    (s : Settings) (n room : ℕ)
    → timeframe_seconds s.timeframe ≡ some n
    → pos 0 <ℤ s.absorption_volume_multiplier.numerator
    → room ≤ s.dedup_window
    → OfOk (IsAt s.symbol n room) (new_session s)
unfolding new_session Absorption.new_detector
new_session-IsAt s n room known positive fits =
    let Q = IsAt s.symbol n room in
    OfOk-bind _ Q
      (Normalizer.new_normalizer s.has_order_book_mapping s.dedup_window s.reorder_tolerance_ms) _
      (new_normalizer-initial s.has_order_book_mapping s.dedup_window s.reorder_tolerance_ms)
      (λ normalizer same.
        OfOk-bind _ Q (Cvd.new_calculator s.symbol s.timeframe) _ (cvd_initial s.symbol s.timeframe)
          (λ cvd c.
            OfOk-bind _ Q (MultiTimeframe.new_aggregator s.symbol ("5m" ∷ "15m" ∷ [])) _
              (aggregator-AreInStep s.symbol)
              (λ higher in_step.
                OfOk-bind _ Q
                  (Divergence.new_detector s.divergence_equal_pivot_policy
                    s.divergence_min_price_move s.divergence_min_bar_distance)
                  _
                  (anything (
                    Divergence.new_detector s.divergence_equal_pivot_policy
                      s.divergence_min_price_move s.divergence_min_bar_distance))
                  (λ divergence _.
                    OfOk-bind _ Q (new_flow s) _ (new_flow-FitsSymbol s.symbol s) (λ flow one.
                      OfOk-bind _ Q (Footprint.new_calculator s.symbol s.timeframe) _
                        (footprint_initial s.symbol s.timeframe)
                        (λ footprint f.
                          OfOk-bind _ Q (VolumeRef.new_tracker s.absorption_volume_ref_bars) _
                            (new_tracker_empty s.absorption_volume_ref_bars)
                            (λ reference empty.
                              OfOk-bind _ Q
                                (Imbalance.new_detector s.imbalance_ratio_threshold
                                  s.imbalance_min_volume s.imbalance_stack_count)
                                _
                                (anything (
                                  Imbalance.new_detector s.imbalance_ratio_threshold
                                    s.imbalance_min_volume s.imbalance_stack_count))
                                (λ imbalance _. record {
                                  emitted = [];
                                  replaying = record {
                                    supplied = rw same (
                                        initial-IsSupplied s.symbol room s.has_order_book_mapping
                                          s.dedup_window (s.reorder_tolerance_ms * 1_000) fits);
                                    running =
                                        fresh-IsRunning s n _ known c f in_step one refl empty
                                          positive (refl, refl, refl, refl);
                                  };
                                }))))))))

-- A pipeline with a known timeframe, a positive volume multiplier and room for the ids of all events
-- replays events whose parsing gives trades and book updates of its symbol, with valid sides and
-- positive prices and quantities, or a `NormalizationError`: it raises nothing; as many trades are
-- stored as the normalizer says that it has normalized; there is one signal and one analysis for
-- each candle stored; the candles' volumes and deltas sum to the quantities and the signed
-- quantities of the trades stored, and the deltas to the final CVD; and no warning is logged, for
-- every candle closes with its footprint bar, which has volume.
pub run-IsComplete :
    (s : Settings) (start : Session) (events : List RawEvent) {n : ℕ}
    → timeframe_seconds s.timeframe ≡ some n
    → pos 0 <ℤ s.absorption_volume_multiplier.numerator
    → length events ≤ s.dedup_window
    → new_session s ≡ ok start
    → All (IsGoodEvent s.symbol) events
    → Returns (λ r. IsComplete r.1.normalized r.0) (run start events)
run-IsComplete s start events {n} known positive fits started good =
    replay-IsComplete s.symbol n start events
      (OfOk-eq (IsAt s.symbol n (length events)) (new_session s) start
        (new_session-IsAt s n (length events) known positive fits) started)
      good
