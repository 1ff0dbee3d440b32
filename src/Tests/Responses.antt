-- ===== src/Tests/Responses.antt =====
-- The detector of responses and its tracker at concrete inputs.
use deltaengine.Prelude.{
  ℕ, List, [], ◌∷◌, none, pos, ℤ, sum_by, ◌≡◌, refl, All, Returns, ok, map, arith,
}
use deltaengine.Trades.{Time, Trade, TradeSide, buy, sell}
use deltaengine.VolumeRef.{Quotient}
use deltaengine.FlowResponse.{
  FlowPriceResponseDetector, FlowResponseSnapshot, buying, buy_stalled, classify, negated,
}
use deltaengine.FlowResponse.Classify.{opposite, mirrored, classify-mirrored}
use deltaengine.FlowResponse.Tracking.{IsExact}
use deltaengine.FlowResponse.Detector
use deltaengine.FlowResponse.Stream
use deltaengine.FlowResponse.Stream.{accepted, run-IsExact}
use deltaengine.FlowResponse.Outcomes.{FlowResponseOutcomeTracker, FlowResponseOutcome}
use deltaengine.FlowResponse.Outcomes.Accounts.{Event, snapshots, trade}
use deltaengine.FlowResponse.Outcomes.Reference.{observe_all, expected, observe_all-expected}

abbrev quotient : ℕ → ℕ → Quotient
quotient a b = record { numerator = pos a; denominator = b }

abbrev detector : FlowPriceResponseDetector
detector = record {
  windows_sec = 1 ∷ 2 ∷ [];
  baseline_window_sec = 2;
  pressure_threshold = quotient 1 5;
  persistence_threshold = quotient 3 5;
  stall_bps = quotient 1 1;
  effective_bps = quotient 2 1;
  opposite_bps = quotient 1 1;
  min_trades = 1;
  buckets = [];
  last_event_time = none;
  last_emitted_second = none;
  symbol = none;
  rejected_out_of_order = 0;
  rejected_invalid_side = 0;
  rejected_invalid_trade = 0;
}

abbrev print : ℕ → Time → ℕ → TradeSide → Trade
print id time quantity side = record {
  trade_id = id;
  event_time = time;
  symbol = "BTCUSDT";
  price = pos 100;
  quantity = pos quantity;
  side = side;
}

-- Two trades of one second, one that comes too late, and one of the next second.
abbrev prints : List Trade
prints =
    print 1 1_000_000 3 buy
    ∷ print 2 1_500_000 1 sell
    ∷ print 3 1_400_000 7 buy
    ∷ print 4 2_000_000 5 buy
    ∷ []

run-IsExact_example : Returns (All (IsExact (accepted none prints))) (Stream.run detector prints)
run-IsExact_example =
    run-IsExact "BTCUSDT" prints detector (omega arith, (omega arith, (omega arith, tt))) refl refl
      refl (refl, (refl, (refl, (refl, tt))))

-- The first second alone is ready, and then the window of two.
run_length :
    map (λ e. e.trade_count) (elim (Stream.run detector prints) [ ok es ↦ es | _ ↦ [] ])
    ≡ 2 ∷ 1 ∷ 3 ∷ []
unfolding Stream.run Detector.process Detector.finalize
run_length = refl

-- A pressure of buyers with no move of the price.
classify-mirrored_example :
    classify detector
      (opposite buying)
      (negated (quotient 1 2))
      (quotient 1 1)
      (negated (quotient 0 1))
      9
    ≡ mirrored (classify detector buying (quotient 1 2) (quotient 1 1) (quotient 0 1) 9)
classify-mirrored_example =
    classify-mirrored detector buying (quotient 1 2) (quotient 1 1) (quotient 0 1) 9

abbrev seen : FlowResponseSnapshot
seen = record {
  event_time = 1_000_000;
  symbol = "BTCUSDT";
  window_sec = 30;
  state = buy_stalled;
  pressure_side = buying;
  buy_volume = pos 3;
  sell_volume = pos 1;
  total_volume = pos 4;
  delta = pos 2;
  pressure_ratio = quotient 2 4;
  persistence = quotient 1 1;
  first_price = pos 90;
  last_price = pos 90;
  high_price = pos 90;
  low_price = pos 90;
  price_change = pos 0;
  price_change_bps = quotient 0 1;
  relative_volume = none;
  trade_count = 2;
  observed_span_sec = 30;
}

abbrev tracker : FlowResponseOutcomeTracker
tracker = record {
  horizons_sec = 1 ∷ 60 ∷ [];
  last_state = [];
  pending = [];
  rejected_invalid_snapshot = 0;
  rejected_invalid_trade = 0;
}

abbrev happenings : List Event
happenings =
    snapshots (seen ∷ []) ∷ trade (print 4 2_000_000 5 buy) ∷ trade (print 5 70_000_000 95 buy) ∷ []

abbrev horizon_of : FlowResponseOutcome → ℤ
horizon_of o = pos o.horizon_sec

observe_all-expected_example :
    sum_by horizon_of (observe_all tracker happenings)
    ≡ sum_by horizon_of (expected tracker happenings)
observe_all-expected_example = observe_all-expected tracker happenings refl horizon_of
