-- ===== src/Tests/Volume.antt =====
-- The calculators of volume at concrete inputs.
use deltaengine.Prelude.{ℕ, List, [], ◌∷◌, none, some, pos, Returns, int_eq, ◌≡◌, refl, All}
use deltaengine.Trades.{Trade, TradeSide, buy, sell, other, Time}
use deltaengine.Cvd.{timeframe_seconds, bar_start, run}
use deltaengine.Cvd.BarTime.{IsBarStart, bar_start_aligned}
use deltaengine.Cvd.Run.{accepted, Conserves, run-Conserves}
use deltaengine.Cvd.Candles.{Increasing, IsCandle, run_candles}
use deltaengine.Footprint
use deltaengine.Footprint.{FootprintTrade, to_levels}
use deltaengine.Footprint.Volumes
use deltaengine.Footprint.Volumes.{feed, keep}
use deltaengine.Footprint.Stream.{Keeps, feed-Keeps}

minute : timeframe_seconds "1m" ≡ some 60
unfolding timeframe_seconds
minute = refl

abbrev trade : ℕ → Time → ℕ → ℕ → TradeSide → Trade
trade id time price quantity side = record {
  trade_id = id;
  event_time = time;
  symbol = "BTCUSDT";
  price = pos price;
  quantity = pos quantity;
  side = side;
}

-- The third trade repeats an id, and the last one is in the next minute.
abbrev trades : List Trade
trades =
    trade 1 1_000_000 100 5 buy
    ∷ trade 2 2_000_000 99 3 sell
    ∷ trade 1 3_000_000 101 4 buy
    ∷ trade 3 61_000_000 102 1 buy
    ∷ []

run-Conserves_example :
    Returns (Conserves trades (accepted [] none trades)) (run trades "BTCUSDT" "1m")
run-Conserves_example = run-Conserves trades "BTCUSDT" "1m" minute

run_candles_example :
    Returns (λ r. Increasing r.candles × All (IsCandle 60) r.candles) (run trades "BTCUSDT" "1m")
run_candles_example = run_candles trades "BTCUSDT" "1m" minute

abbrev sideless : Trade
sideless = trade 7 1_000_000 100 5 (other "HOLD")

bar_start_aligned_example : Returns (IsBarStart 60 61_500_000) (bar_start 61_500_000 "1m")
bar_start_aligned_example = bar_start_aligned 61_500_000 "1m" minute

abbrev print : ℕ → Time → ℕ → ℕ → TradeSide → FootprintTrade
print id time price quantity side = record {
  trade_id = id;
  event_time = time;
  symbol = "BTCUSDT";
  price = pos price;
  quantity = pos quantity;
  side = side;
}

abbrev prints : List FootprintTrade
prints =
    print 1 1_000_000 100 5 buy
    ∷ print 2 2_000_000 99 3 sell
    ∷ print 4 3_000_000 0 4 buy
    ∷ print 3 61_000_000 100 1 buy
    ∷ []

feed-Keeps_example :
    Returns
      (λ r.
        Keeps
          (pos 100)
          prints
          (Footprint.Volumes.accepted [] prints)
          (Footprint.finalize r.0).0
          (keep r.1 (Footprint.finalize r.0).1))
      (feed (Footprint.initial "BTCUSDT" "1m") [] prints)
feed-Keeps_example = feed-Keeps prints "BTCUSDT" "1m" (pos 100) minute

abbrev two_prices : Footprint.BarAccumulator
two_prices = record {
  bar_time = 0;
  buys = (pos 100, pos 5) ∷ [];
  sells = (pos 99, pos 3) ∷ (pos 100, pos 2) ∷ [];
}
