-- ===== src/Tests/Fanout.antt =====
-- The aggregator of timeframes and the receiver at concrete inputs.
use deltaengine.Prelude.{
  ℕ, ◌+ℤ◌, List, [], ◌∷◌, Option, none, some, String, pos, Dict, keys, ltb, Returns, ◌≡◌, refl,
  arith,
}
use deltaengine.Trades.{Trade, TradeSide, buy}
use deltaengine.Cvd.{timeframe_seconds, CvdCalculator, initial}
use deltaengine.Cvd.Process.{signed}
use deltaengine.Cvd.Run.{initial-IsValid}
use deltaengine.MultiTimeframe.{process_each}
use deltaengine.MultiTimeframe.Lockstep.{AreInStep, process_each-AreInStep}
use deltaengine.EventQueue.{drop_oldest_log}
use deltaengine.EventQueue.Sink.{dropping_sink}
use deltaengine.Receiver.{DataReceiver}
use deltaengine.Receiver
use deltaengine.Receiver.Forwarding.{HasRun, run-HasRun}

abbrev trade : TradeSide → Trade
trade side = record {
  trade_id = 1;
  event_time = 400_000_000;
  symbol = "BTCUSDT";
  price = pos 100;
  quantity = pos 5;
  side = side;
}

abbrev calculators : Dict String CvdCalculator
calculators = ("5m", initial "BTCUSDT" "5m") ∷ ("15m", initial "BTCUSDT" "15m") ∷ []

calculators-AreInStep : AreInStep [] none (pos 0) calculators
unfolding timeframe_seconds
calculators-AreInStep = (
  record {
    seconds = 300;
    valid = initial-IsValid 300 "BTCUSDT" "5m" refl;
    seen_ids = refl;
    last_event_time = refl;
    same_cvd = refl;
  },
  (
    record {
      seconds = 900;
      valid = initial-IsValid 900 "BTCUSDT" "15m" refl;
      seen_ids = refl;
      last_event_time = refl;
      same_cvd = refl;
    },
    tt,
  ),
)

process_each-AreInStep_example :
    Returns
      (λ r.
        AreInStep (1 ∷ []) (some 400_000_000) (pos 0 +ℤ signed buy (pos 5)) r.0
        × (keys r.0 ≡ keys calculators))
      (process_each (trade buy) calculators)
process_each-AreInStep_example =
    process_each-AreInStep [] none (pos 0) (trade buy) calculators calculators-AreInStep refl

-- Messages are numbers, and 0 is not valid.
abbrev receiver : DataReceiver (dropping_sink ℕ)
receiver = record {
  destination = record {
    queue = record {
      items = [];
      maxsize = 2;
      overflow_policy = drop_oldest_log;
      overflow_count = 0;
    };
    valid = record { positive = omega arith; bounded = omega arith };
  };
  recorder = some [];
  validate = λ m. ltb 0 m;
  sequence_key = some (λ m. m);
  last_seq = none;
  forwarded = 0;
  invalid = 0;
  out_of_order = 0;
}

abbrev messages : List (Option ℕ)
messages = some 5 ∷ some 0 ∷ some 3 ∷ none ∷ some 9 ∷ []

run-HasRun_example : HasRun receiver messages (Receiver.run receiver messages).0
run-HasRun_example = run-HasRun messages receiver
