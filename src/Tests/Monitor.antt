-- ===== src/Tests/Monitor.antt =====
-- The self-monitor at concrete inputs.
use deltaengine.Prelude.{
  ℕ, List, [], ◌∷◌, ◌++◌, none, some, Bool, true, false, ◌&&◌, if◌then◌else◌, ◌+◌, pos, ◌≡◌, refl,
  arith,
}
use deltaengine.Trades.{Time}
use deltaengine.Health.{
  HealthMonitor, HealthSnapshot, Settings, new_counter, green, evaluate, total,
}
use deltaengine.Health.Windows.{rises, within}
use deltaengine.Health.Counters.{gaps, check_of, samples, run, evaluate_window}
use deltaengine.Health.Days.{counted_on, reported, evaluate_today}
use deltaengine.Health.Dead.{deaths_reported, deaths_reported_once, finds_dead}

abbrev settings : Settings
settings = record {
  timeframe_sec = 60;
  bar_missing_tolerance_sec = 90;
  latency_yellow_ms = 2_000;
  latency_red_ms = 10_000;
  memory_yellow_mb = 900;
  memory_red_mb = 1_500;
  window_sec = 900;
  reconnect_yellow = 1;
  reconnect_red = 3;
  gap_yellow = 1;
  gap_red = 5;
  exception_yellow = 1;
  exception_red = 3;
}

abbrev monitor : HealthMonitor
monitor = record {
  settings = settings;
  start_time = none;
  gaps = new_counter;
  reconnects = new_counter;
  exceptions = new_counter;
  prev_levels = record { dead = green; bar = green; latency = green; memory = green };
  anomalies_today = 0;
  anomalies_date = none;
}

abbrev sample : Time → ℕ → Bool → HealthSnapshot
sample time gap_count alive = record {
  sample_time = time;
  gaps_detected = gap_count;
  reconnects = 0;
  exceptions = 0;
  pipeline_alive = alive;
  last_bar_wall = none;
  last_event_time = none;
  rss_mb = some 400;
}

-- Two gaps, and then, more than a window later, one gap more.
abbrev sampled : List HealthSnapshot
sampled = sample 0 0 true ∷ sample 1_000_000 2 true ∷ []

abbrev late : HealthSnapshot
late = sample 1_000_000_000 3 true

evaluate_window_example :
    (check_of gaps (evaluate (run monitor sampled) late).1.checks).value
    ≡ some
        (pos (total (within 900 1_000_000_000 (rises none (samples gaps (sampled ++ late ∷ []))))))
evaluate_window_example =
    evaluate_window gaps sampled monitor late refl (omega arith, (omega arith, (omega arith, tt)))

evaluate_today_example :
    (evaluate (run monitor sampled) late).1.anomalies_today
    ≡ counted_on 0 none 0 + reported monitor (sampled ++ late ∷ [])
evaluate_today_example = evaluate_today 0 sampled monitor late (refl, (refl, (refl, tt)))

-- The pipeline dies, is back, and dies again.
abbrev deaths : List HealthSnapshot
deaths = sample 0 0 false ∷ sample 1_000_000 0 true ∷ sample 2_000_000 0 false ∷ []

deaths_reported_once_example :
    deaths_reported monitor deaths ≡ (if finds_dead deaths && true then 1 else 0)
deaths_reported_once_example = deaths_reported_once deaths monitor
