-- ===== src/Tests/Replays.antt =====
-- A short replay: two trades in two minutes, one of them recorded twice, with a book.
use deltaengine.Prelude.{
  List, [], ◌∷◌, none, some, true, false, pos, ok, raise, normalization_error, Returns, ◌≡◌, refl,
  inl, arith,
}
use deltaengine.Trades.{buy, sell}
use deltaengine.OrderBook
use deltaengine.OrderBook.{OrderBookUpdate}
use deltaengine.VolumeRef
use deltaengine.Cvd
use deltaengine.Footprint
use deltaengine.MultiTimeframe
use deltaengine.Absorption
use deltaengine.Imbalance
use deltaengine.Divergence
use deltaengine.Normalizer
use deltaengine.Normalizer.{NormalizedTrade}
use deltaengine.Pipeline.Run.{
  RawEvent, unusable, depth_event, trade_event, Session, Settings, new_flow, new_session, run,
}
use deltaengine.Pipeline.Finish.{IsComplete}
use deltaengine.Pipeline.Sessions.{run-IsComplete}

abbrev settings : Settings
settings = record {
  symbol = "BTCUSDT";
  timeframe = "1m";
  has_order_book_mapping = true;
  dedup_window = 10_000;
  reorder_tolerance_ms = 500;
  imbalance_ratio_threshold = record { numerator = pos 3; denominator = 1 };
  imbalance_min_volume = pos 50;
  imbalance_stack_count = 3;
  absorption_window_sec = 10;
  absorption_price_stall_ticks = 1;
  absorption_volume_multiplier = record { numerator = pos 2; denominator = 1 };
  absorption_volume_ref_bars = 20;
  divergence_equal_pivot_policy = "first";
  divergence_min_price_move = pos 0;
  divergence_min_bar_distance = 0;
  flow_response_enabled = false;
  flow_response_windows_sec = [];
  flow_response_baseline_window_sec = 0;
  flow_response_thresholds = record {
    pressure_threshold = record { numerator = pos 1; denominator = 5 };
    persistence_threshold = record { numerator = pos 3; denominator = 5 };
    stall_bps = record { numerator = pos 1; denominator = 1 };
    effective_bps = record { numerator = pos 2; denominator = 1 };
    opposite_bps = record { numerator = pos 1; denominator = 1 };
  };
  flow_response_min_trades = 20;
  flow_response_outcome_horizons_sec = [];
}

abbrev session : Session
session = record {
  normalizer = Normalizer.initial true 10_000 500_000;
  replay = record {
    stored = [];
    flow = none;
    flow_response = [];
    flow_response_events = [];
    flow_response_outcomes = [];
    cvd = Cvd.initial "BTCUSDT" "1m";
    higher_timeframes =
        ("5m", Cvd.initial "BTCUSDT" "5m") ∷ ("15m", Cvd.initial "BTCUSDT" "15m") ∷ [];
    higher_timeframe_candles = [];
    footprint = Footprint.initial "BTCUSDT" "1m";
    book_state = OrderBook.new_manager "BTCUSDT";
    volume_ref = record { bars = 20; observations = 0; window = [] };
    absorption = Absorption.new_detector 10 1 (record { numerator = pos 2; denominator = 1 });
    imbalance_detector = record {
      ratio_threshold = record { numerator = pos 3; denominator = 1 };
      min_volume = pos 50;
      stack_count = 3;
      invalid_pairs = 0;
      last_effective_min_volume = record { numerator = pos 50; denominator = 1 };
    };
    divergence_detector = Divergence.initial (pos 0) 0;
    divergence = none;
    analysis_count = 0;
    missing_bars = 0;
    zero_volume_bars = 0;
  };
  invalid = 0;
}

settings_session : new_session settings ≡ ok session
unfolding new_session new_flow Normalizer.new_normalizer Cvd.new_calculator
    MultiTimeframe.new_aggregator MultiTimeframe.unique_from MultiTimeframe.calculators_for
    Divergence.new_detector Footprint.new_calculator VolumeRef.new_tracker Imbalance.new_detector
    Cvd.timeframe_seconds
settings_session = refl

abbrev first_trade : NormalizedTrade
first_trade = record {
  event_time = 61_000_000;
  trade_time = 61_000_000;
  trade_id = 1;
  symbol = "BTCUSDT";
  price = pos 100;
  quantity = pos 7;
  side = buy;
}

abbrev second_trade : NormalizedTrade
second_trade = record {
  event_time = 122_000_000;
  trade_time = 122_000_000;
  trade_id = 2;
  symbol = "BTCUSDT";
  price = pos 101;
  quantity = pos 5;
  side = sell;
}

abbrev snapshot : OrderBookUpdate
snapshot = record {
  event_time = 60_000_000;
  symbol = "BTCUSDT";
  update_type = "SNAPSHOT";
  first_update_id = none;
  final_update_id = 10;
  previous_final_update_id = none;
  bids = record { price = pos 100; quantity = pos 3 } ∷ [];
  asks = record { price = pos 101; quantity = pos 4 } ∷ [];
}

abbrev events : List RawEvent
events =
    depth_event (ok snapshot)
    ∷ trade_event (ok first_trade)
    ∷ unusable
    ∷ trade_event (ok first_trade)
    ∷ trade_event (raise normalization_error)
    ∷ trade_event (ok second_trade)
    ∷ []

minute : Cvd.timeframe_seconds "1m" ≡ some 60
unfolding Cvd.timeframe_seconds
minute = refl

run-IsComplete_example : Returns (λ r. IsComplete r.1.normalized r.0) (run session events)
run-IsComplete_example =
    run-IsComplete settings session events minute (omega arith) (omega arith) settings_session
      ((refl, inl refl), (refl, (tt, (refl, (tt, (refl, tt))))))
