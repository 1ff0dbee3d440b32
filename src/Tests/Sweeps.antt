-- ===== src/Tests/Sweeps.antt =====
-- The flow detectors at concrete inputs.
use deltaengine.Prelude.{ℕ, List, [], ◌∷◌, true, refl, pos, negsuc, Returns, arith}
use deltaengine.Trades.{Time, Trade, buy}
use deltaengine.Footprint.{PriceLevel, FootprintBar}
use deltaengine.UnfinishedAuction
use deltaengine.UnfinishedAuction.Extremes.{Outcome, process-Outcome}
use deltaengine.Sweep.{SweepDetector}
use deltaengine.Sweep.Cooldown.{process_all, AreSpaced, process_all-AreSpaced}

abbrev detector : SweepDetector
detector = record {
  window_ms = 500;
  min_quantity = pos 2;
  min_levels = 2;
  tick_size = pos 10;
  cooldown_ms = 1_000;
  buys = [];
  sells = [];
  last_buy_ms = negsuc 999_999_998;
  last_sell_ms = negsuc 999_999_998;
}

abbrev purchase : ℕ → Time → ℕ → Trade
purchase id time price = record {
  trade_id = id;
  event_time = time;
  symbol = "BTCUSDT";
  price = pos price;
  quantity = pos 3;
  side = buy;
}

-- Two trades over two levels, and a third one within the cooldown.
abbrev trades : List Trade
trades = purchase 1 1_000_000 100 ∷ purchase 2 1_100_000 110 ∷ purchase 3 1_200_000 120 ∷ []

process_all-AreSpaced_example :
    Returns (AreSpaced true 1_000 (negsuc 999_999_998)) (process_all detector trades)
process_all-AreSpaced_example = process_all-AreSpaced true trades detector (omega arith)

abbrev level : ℕ → ℕ → ℕ → PriceLevel
level price bought sold = record {
  price = pos price;
  buy_volume = pos bought;
  sell_volume = pos sold;
}

-- Both sides have traded at the lowest level only.
abbrev bar : FootprintBar
bar = record {
  bar_time = 60_000_000;
  symbol = "BTCUSDT";
  timeframe = "1m";
  levels = level 100 7 5 ∷ level 110 9 2 ∷ level 120 3 0 ∷ [];
}

process-Outcome_example :
    Returns
      (Outcome (pos 3) (level 100 7 5) (level 110 9 2 ∷ level 120 3 0 ∷ []))
      (UnfinishedAuction.process (pos 3) bar)
process-Outcome_example =
    process-Outcome 3 bar (level 100 7 5) (level 110 9 2 ∷ level 120 3 0 ∷ []) (omega arith) refl
      ((omega arith, (omega arith, tt)), ((omega arith, tt), (tt, tt)))
