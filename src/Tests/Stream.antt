-- ===== src/Tests/Stream.antt =====
-- The normalizer and the detectors at concrete inputs.
use deltaengine.Prelude.{
  ℕ, ◌+◌, ◌≤◌, List, [], ◌∷◌, some, true, ℤ, pos, count, Result, ok, raise, normalization_error,
  push, is_some, true, ◌-ℤ◌, Returns, latest, ◌≡◌, refl, arith,
}
use deltaengine.Trades.{Time, buy}
use deltaengine.Cvd.{Candle}
use deltaengine.Normalizer
use deltaengine.Normalizer.{NormalizedTrade, DataNormalizer, initial, take}
use deltaengine.Normalizer.Buffer.{held}
use deltaengine.Normalizer.Process.{IsValid, take_in_tolerance}
use deltaengine.Normalizer.Stream.{Delivers, run-Delivers}
use deltaengine.Normalizer.Unique.{has_id, run_unique}
use deltaengine.VolumeRef.{VolumeRefTracker, current}
use deltaengine.VolumeRef.Average.{observe_all, average_of, current_average}
use deltaengine.Divergence
use deltaengine.Divergence.{CvdDivergenceDetector, update}
use deltaengine.Divergence.Pivots.{OfEvent}
use deltaengine.Divergence.Runs.{feed, IsSoundEvent, feed_sound}

abbrev trade : ℕ → Time → NormalizedTrade
trade id time = record {
  event_time = time;
  trade_time = time;
  trade_id = id;
  symbol = "BTCUSDT";
  price = pos 100;
  quantity = pos 1;
  side = buy;
}

-- Two trades out of order, one repeated, and one that cannot be normalized.
abbrev raws : List (Result NormalizedTrade)
raws = ok (trade 1 5_000) ∷ ok (trade 2 4_000) ∷ ok (trade 1 6_000) ∷ raise normalization_error ∷ []

run-Delivers_example : Returns (Delivers (has_id 1) raws) (Normalizer.run raws true 10 500)
run-Delivers_example =
    run-Delivers (has_id 1) raws true 10 500 (omega arith) (tt, (tt, (tt, (tt, tt))))

run_unique_example : Returns (λ r. count (has_id 1) r.emitted ≤ 1) (Normalizer.run raws true 10 500)
run_unique_example =
    run_unique 1 raws true 10 500 (omega arith) (omega arith) (tt, (tt, (tt, (tt, tt))))

-- A trade has been emitted at 3,000, and the newest is at 5,000.
abbrev running : DataNormalizer
running = record (initial true 10 1_000) {
  recent_ids = 1 ∷ 2 ∷ [];
  recent_set = 2 ∷ 1 ∷ [];
  buffer = record { time = 5_000; seq = 1; trade = trade 2 5_000 } ∷ [];
  seq = 2;
  newest_seen = some 5_000;
  last_emitted = some 3_000;
}

running-IsValid : IsValid running
running-IsValid = record {
  agrees = λ k. ground arith;
  buffer = (omega arith, refl, tt);
  caught_up = (omega arith, (omega arith, tt));
}

take_in_tolerance_example :
    let r = take running (trade 3 4_500) in
    (r.0.processed ≡ running.processed + 1)
    × (r.0.rejected ≡ running.rejected)
    × (count (has_id 3) r.1 + held (has_id 3) r.0.buffer
        ≡ held (has_id 3) running.buffer + count (has_id 3) (trade 3 4_500 ∷ []))
take_in_tolerance_example =
    take_in_tolerance running (trade 3 4_500) 5_000 (has_id 3) running-IsValid refl (omega arith)
      refl

abbrev tracker : VolumeRefTracker
tracker = record { bars = 2; observations = 0; window = [] }

abbrev volumes : List (List ℤ)
volumes = (pos 9 ∷ []) ∷ (pos 4 ∷ pos 6 ∷ []) ∷ (pos 8 ∷ []) ∷ []

current_average_example : current (observe_all tracker volumes) ≡ average_of (latest 2 volumes)
current_average_example = current_average volumes tracker refl

abbrev candle : Time → ℕ → ℕ → ℕ → Candle
candle time low high cvd = record {
  bar_time = time;
  symbol = "BTCUSDT";
  timeframe = "1m";
  opening = pos low;
  high = pos high;
  low = pos low;
  close = pos high;
  volume = pos 1;
  delta = pos 0;
  cvd = pos cvd;
}

-- Behind a swing low at 90, the candle at 85 becomes the next one.
abbrev lows : List Candle
lows = candle 1 95 105 3 ∷ candle 2 90 100 4 ∷ candle 3 92 108 6 ∷ candle 4 85 105 9 ∷ []

abbrev seen_lows : CvdDivergenceDetector × List Candle
seen_lows = feed (Divergence.initial (pos 1) 1) [] lows

-- There is an event for the candle that follows.
lows_diverge : is_some (update seen_lows.0 (candle 5 88 107 10)).1 ≡ true
unfolding feed update push ◌-ℤ◌
lows_diverge = refl

feed_sound_example :
    OfEvent
      (IsSoundEvent (pos 1) 1 seen_lows.1 (update seen_lows.0 (candle 5 88 107 10)).0.candles)
      (update seen_lows.0 (candle 5 88 107 10)).1
feed_sound_example = feed_sound (pos 1) 1 lows (candle 5 88 107 10)
