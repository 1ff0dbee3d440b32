-- ===== src/Tests/Detectors.antt =====
-- The imbalance and the absorption detector at concrete inputs.
use deltaengine.Prelude.{ℕ, List, [], ◌∷◌, none, pos, All, ok, ◌≡◌, refl, arith}
use deltaengine.Trades.{Time, Trade, sell}
use deltaengine.OrderBook.{OrderBookSnapshot}
use deltaengine.VolumeRef.{Quotient}
use deltaengine.Footprint.{BarAccumulator}
use deltaengine.Imbalance.{Imbalance, cap, buying, ImbalanceDetector, find_stacked}
use deltaengine.Imbalance.Stacks.{runs, joined, Follow, AreMaximal, stacks_of, find_stacked-runs}
use deltaengine.Absorption.{AbsorptionDetector, observe_trade, slide, prune}
use deltaengine.Absorption.Window.{Call, recent, observe_all, trades_of, observe_all_window}

abbrev imbalance : ℕ → ℕ → Imbalance
imbalance i p = record { index = i; price = pos p; ratio = cap }

-- A run of three levels, and one level alone.
abbrev found : List Imbalance
found = imbalance 1 101 ∷ imbalance 2 102 ∷ imbalance 3 103 ∷ imbalance 7 107 ∷ []

find_stacked-runs_example :
    (joined (runs found) ≡ found)
    × All (λ r. Follow r.0 r.1) (runs found)
    × AreMaximal (runs found)
    × (find_stacked 3 buying found ≡ stacks_of 3 buying (runs found))
find_stacked-runs_example = find_stacked-runs 3 buying found

abbrev detector : ImbalanceDetector
detector = record {
  ratio_threshold = record { numerator = pos 3; denominator = 1 };
  min_volume = pos 1;
  stack_count = 3;
  invalid_pairs = 0;
  last_effective_min_volume = record { numerator = pos 1; denominator = 1 };
}

abbrev bar : BarAccumulator
bar = record {
  bar_time = 0;
  buys = (pos 101, pos 9) ∷ [];
  sells = (pos 100, pos 2) ∷ (pos 101, pos 1) ∷ [];
}

abbrev sale : ℕ → Time → Trade
sale id time = record {
  trade_id = id;
  event_time = time;
  symbol = "BTCUSDT";
  price = pos 100;
  quantity = pos 5;
  side = sell;
}

abbrev book : OrderBookSnapshot
book = record { symbol = "BTCUSDT"; last_update_id = 1; bids = (pos 100, pos 4) ∷ []; asks = [] }

abbrev watching : List Trade → AbsorptionDetector
watching window = record {
  window_size = 10;
  price_stall_ticks = 2;
  volume_multiplier = record { numerator = pos 2; denominator = 1 };
  window = window;
  window_start_snapshot = none;
  last_result = none;
  events_detected = 0;
  aggression_condition_fails = 0;
  stall_condition_fails = 0;
  replenish_condition_fails = 0;
  double_direction_events = 0;
}

abbrev reference : Quotient
reference = record { numerator = pos 6; denominator = 2 }

-- The second trade comes when the first is too old; no book has been seen.
abbrev calls : List Call
calls = (sale 1 5, none, none) ∷ (sale 2 20, none, none) ∷ []

calls_ran : observe_all (watching []) calls ≡ ok (watching (sale 2 20 ∷ []))
unfolding observe_all observe_trade slide prune
calls_ran = refl

observe_all_window_example : sale 2 20 ∷ [] ≡ recent 10 20 (trades_of calls)
observe_all_window_example =
    observe_all_window calls (watching []) (watching (sale 2 20 ∷ [])) (omega arith) refl
      (omega arith, (omega arith, tt)) calls_ran
