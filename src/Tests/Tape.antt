-- ===== src/Tests/Tape.antt =====
-- Four trades on the tape, of which two are late enough for an event.
use deltaengine.Prelude.{ℕ, List, [], ◌∷◌, pos, length, ◌≡◌, refl}
use deltaengine.Trades.{Time, Trade, TradeSide, buy, sell}
use deltaengine.Tape
use deltaengine.Tape.{TapeAnalyzer}
use deltaengine.Tape.Intervals.{analyze_all, AreSpaced, analyze_all-AreSpaced}

abbrev analyzer : TapeAnalyzer
analyzer = record {
  window_ms = 5_000;
  emit_interval_ms = 1_000;
  pause_threshold_ms = 3_000;
  buy_threshold = record { numerator = pos 3; denominator = 5 };
  sell_threshold = record { numerator = pos 2; denominator = 5 };
  buffer = [];
  last_emit_ms = 0;
  last_trade_ms = 0;
}

abbrev trade : ℕ → Time → TradeSide → Trade
trade id time side = record {
  trade_id = id;
  event_time = time;
  symbol = "BTCUSDT";
  price = pos 100;
  quantity = pos 2;
  side = side;
}

abbrev trades : List Trade
trades =
    trade 1 10_000_000 buy
    ∷ trade 2 10_500_000 buy
    ∷ trade 3 11_200_000 sell
    ∷ trade 4 11_900_000 buy
    ∷ []

two_events : length (analyze_all analyzer trades) ≡ 2
unfolding analyze_all Tape.process Tape.prune Tape.emit Tape.longest Tape.volume Tape.buy_volume
two_events = refl

analyze_all-AreSpaced_example : AreSpaced 1_000 0 (analyze_all analyzer trades)
analyze_all-AreSpaced_example = analyze_all-AreSpaced trades analyzer
