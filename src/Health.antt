-- ===== src/Health.antt =====
-- The self-monitor (src/monitor/health.py): `HealthMonitor.evaluate` over snapshots of the pipeline. The
-- three counters and the four edge-triggered checks that the source keeps in dicts under fixed keys
-- are fields. The texts of `detail` only print values that are there, and are left out; the file of
-- anomalies gets what `new_anomalies` lists.
pub mod Worst
pub mod Windows
pub mod Counters
pub mod Days
pub mod Dead
use deltaengine.Prelude.{
  ℕ, ◌+◌, ◌-◌, ◌*◌, ◌/◌, List, [], ◌∷◌, ◌++◌, Option, none, some, Bool, true, false, not, ◌&&◌, ℤ,
  pos, negsuc, ltb, leb, ltb_ℤ, leb_ℤ, if◌then◌else◌, ◌==◌, nat_eq, Result, ok, raise, value_error,
  is_some,
}
use deltaengine.Trades.{Time}

pub data Level : Type 0 where
  green yellow red : Level

-- `_LEVEL_ORDER`
abbrev pub rank : Level → ℕ
rank green = 0
rank yellow = 1
rank red = 2

pub data AnomalyType : Type 0 where
  sequence_gap bar_missing ws_reconnect processing_latency memory_rss : AnomalyType
  pipeline_exception pipeline_dead : AnomalyType

-- `timedelta` to whole units of `unit` microseconds, rounded down.
unfoldable pub floor_between : ℕ → Time → Time → ℤ
floor_between unit now start =
    if leb start now then pos ((now - start) / unit) else negsuc ((start - now - 1) / unit)

-- `_td_sec` and `_td_ms` of `now - start`
abbrev pub td_sec : Time → Time → ℤ
td_sec now start = floor_between 1_000_000 now start

abbrev pub td_ms : Time → Time → ℤ
td_ms now start = floor_between 1_000 now start

pub record HealthSnapshot : Type 0 where
  pub sample_time : Time
  pub gaps_detected : ℕ
  pub reconnects : ℕ
  pub exceptions : ℕ
  pub pipeline_alive : Bool
  pub last_bar_wall : Option Time
  pub last_event_time : Option Time
  pub rss_mb : Option ℕ

-- A value is `none` for the text "-".
pub record Anomaly : Type 0 where
  pub time : Time
  pub type : AnomalyType
  pub level : Level
  pub value : Option ℤ

pub record Check : Type 0 where
  pub level : Level
  pub value : Option ℤ

pub record Checks : Type 0 where
  pub gaps : Check
  pub reconnects : Check
  pub pipeline : Check
  pub bar_flow : Check
  pub latency : Check
  pub memory : Check

pub record HealthReport : Type 0 where
  pub state : Level
  pub sample_time : Time
  pub checks : Checks
  pub new_anomalies : List Anomaly
  pub anomalies_today : ℕ

-- What the monitor keeps of one counter: `_prev_counters[key]` and `_events[key]`.
pub record Counter : Type 0 where
  pub prev : Option ℕ
  pub events : List (Time × ℕ)

-- `_prev_levels`, where a missing key means GREEN.
pub record PrevLevels : Type 0 where
  pub dead : Level
  pub bar : Level
  pub latency : Level
  pub memory : Level

-- The thresholds of `__init__`.
pub record Settings : Type 0 where
  pub timeframe_sec : ℕ
  pub bar_missing_tolerance_sec : ℕ
  pub latency_yellow_ms : ℕ
  pub latency_red_ms : ℕ
  pub memory_yellow_mb : ℕ
  pub memory_red_mb : ℕ
  pub window_sec : ℕ
  pub reconnect_yellow : ℕ
  pub reconnect_red : ℕ
  pub gap_yellow : ℕ
  pub gap_red : ℕ
  pub exception_yellow : ℕ
  pub exception_red : ℕ

-- `_anomalies_today` and `_anomalies_date`, with the list `out` of one evaluation.
pub record Journal : Type 0 where
  pub today : ℕ
  pub date : Option ℕ
  pub out : List Anomaly

pub record HealthMonitor : Type 0 where
  pub settings : Settings
  pub start_time : Option Time
  pub gaps : Counter
  pub reconnects : Counter
  pub exceptions : Counter
  pub prev_levels : PrevLevels
  pub anomalies_today : ℕ
  pub anomalies_date : Option ℕ

abbrev pub new_counter : Counter
new_counter = record { prev = none; events = [] }

-- `HealthMonitor.__init__`
unfoldable pub new_monitor : Settings → Result HealthMonitor
new_monitor s =
    if ltb s.timeframe_sec 1
    then raise value_error
    else ok (record {
      settings = s;
      start_time = none;
      gaps = new_counter;
      reconnects = new_counter;
      exceptions = new_counter;
      prev_levels = record { dead = green; bar = green; latency = green; memory = green };
      anomalies_today = 0;
      anomalies_date = none;
    })

-- The date of a time, in UTC: whole days since the epoch.
abbrev pub day_of : Time → ℕ
day_of t = t / 86_400_000_000

abbrev pub is_day : Option ℕ → ℕ → Bool
is_day none day = false
is_day (some d) day = d == day

-- The reset of `_anomalies_today` on another day.
unfoldable pub turn_day : ℕ → Journal → Journal
turn_day day j = if is_day j.date day then j else record j { today = 0; date = some day }

-- `_record`
unfoldable pub note : Anomaly → Journal → Journal
unfolding turn_day
note a j =
    let k = turn_day (day_of a.time) j in record k { today = k.today + 1; out = k.out ++ a ∷ [] }

-- `_window_total`: the prune and the sum.
unfoldable pub prune : ℕ → Time → List (Time × ℕ) → List (Time × ℕ)
unfolding floor_between
prune window now [] = []
prune window now ((t, inc) ∷ es) =
    let rest = prune window now es in
    if ltb_ℤ (pos window) (td_sec now t) then rest else (t, inc) ∷ es

abbrev pub total : List (Time × ℕ) → ℕ
total [] = 0
total ((t, inc) ∷ es) = inc + total es

-- How much a counter has risen since its previous value.
abbrev pub rise : Option ℕ → ℕ → ℕ
rise none current = 0
rise (some prev) current = current - prev

abbrev pub graded : ℕ → ℕ → ℕ → Level
graded value yellow_at red_at =
    if leb red_at value then red else if leb yellow_at value then yellow else green

-- The counter behind a sample.
unfoldable pub count_sample : ℕ → Time → ℕ → Counter → Counter
unfolding prune
count_sample window now current c =
    let inc = rise c.prev current in
    let events = if ltb 0 inc then c.events ++ (now, inc) ∷ [] else c.events in
    record { prev = some current; events = prune window now events }

-- The check of a counter, and its anomaly at the moment of a rise.
abbrev pub counter_check : Counter → ℕ → ℕ → Check
counter_check c yellow_at red_at = record {
  level = graded (total c.events) yellow_at red_at;
  value = some (pos (total c.events));
}

abbrev pub rise_entry : AnomalyType → Time → Level → ℕ → Option Anomaly
rise_entry type now level inc =
    if ltb 0 inc
    then some (record { time = now; type = type; level = level; value = some (pos inc) })
    else none

-- The anomaly of `_edge_record`, where the level is worse than the one that it remembers.
abbrev pub edge_entry : AnomalyType → Time → Level → Level → Option ℤ → Option Anomaly
edge_entry type now prev level value =
    if ltb (rank prev) (rank level)
    then some (record { time = now; type = type; level = level; value = value })
    else none

-- `_record` of each anomaly that there is.
unfoldable pub note_each : List (Option Anomaly) → Journal → Journal
unfolding note
note_each [] j = j
note_each (none ∷ es) j = note_each es j
note_each (some a ∷ es) j = note_each es (note a j)

-- Check 2.
unfoldable pub bar_silence : Time → Time → Option Time → ℤ
unfolding floor_between
bar_silence now start none = td_sec now start
bar_silence now start (some wall) = td_sec now wall

unfoldable pub bar_check : Settings → Time → Time → Option Time → Check
unfolding bar_silence
bar_check s now start last_bar =
    let warmup = s.timeframe_sec + s.bar_missing_tolerance_sec in
    let silent = bar_silence now start last_bar in
    record {
      level =
          if ltb_ℤ (td_sec now start) (pos warmup) && not (is_some last_bar)
          then green
          else if ltb_ℤ (pos (2 * s.timeframe_sec + s.bar_missing_tolerance_sec)) silent
          then red
          else if ltb_ℤ (pos warmup) silent
          then yellow
          else green;
      value = some silent;
    }

-- Checks 4 and 5.
abbrev pub at_least_zero : ℤ → ℕ
at_least_zero (pos n) = n
at_least_zero (negsuc n) = 0

unfoldable pub latency_check : Settings → Time → Option Time → Check
unfolding floor_between
latency_check s now none = record { level = green; value = some (pos 0) }
latency_check s now (some event) =
    let lag = at_least_zero (td_ms now event) in
    record { level = graded lag s.latency_yellow_ms s.latency_red_ms; value = some (pos lag) }

unfoldable pub memory_check : Settings → Option ℕ → Check
memory_check s none = record { level = green; value = none }
memory_check s (some mb) = record {
  level = graded mb s.memory_yellow_mb s.memory_red_mb;
  value = some (pos mb);
}

-- The worst level: the loop over the checks.
abbrev pub worse : Level → Level → Level
worse worst level = if ltb (rank worst) (rank level) then level else worst

abbrev pub levels_of : Checks → List Level
levels_of c =
    c.gaps.level ∷ c.reconnects.level ∷ c.pipeline.level ∷ c.bar_flow.level ∷ c.latency.level
    ∷ c.memory.level ∷ []

unfoldable pub worst_from : Level → List Level → Level
worst_from worst [] = worst
worst_from worst (l ∷ ls) = worst_from (worse worst l) ls

unfoldable pub worst_of : Checks → Level
unfolding worst_from
worst_of c = worst_from green (levels_of c)

-- `self._start_time`, set by the first evaluation.
abbrev pub started : Option Time → Time → Time
started none now = now
started (some start) now = start

-- The checks of an evaluation, for the counters behind the sample.
unfoldable pub checks_of : Settings → Time → HealthSnapshot → Counter → Counter → Counter → Checks
unfolding bar_check latency_check memory_check
checks_of s start snap gaps reconnects exceptions =
    let counted = counter_check exceptions s.exception_yellow s.exception_red in
    record {
      gaps = counter_check gaps s.gap_yellow s.gap_red;
      reconnects = counter_check reconnects s.reconnect_yellow s.reconnect_red;
      pipeline = if snap.pipeline_alive then counted else record counted { level = red };
      bar_flow = bar_check s snap.sample_time start snap.last_bar_wall;
      latency = latency_check s snap.sample_time snap.last_event_time;
      memory = memory_check s snap.rss_mb;
    }

-- What an evaluation records, in its order.
abbrev pub entries_of : HealthMonitor → HealthSnapshot → Checks → Level → List (Option Anomaly)
entries_of m snap c exception_level =
    let now = snap.sample_time in
    let p = m.prev_levels in
    rise_entry sequence_gap now c.gaps.level (rise m.gaps.prev snap.gaps_detected)
    ∷ rise_entry ws_reconnect now c.reconnects.level (rise m.reconnects.prev snap.reconnects)
    ∷ rise_entry pipeline_exception now exception_level (rise m.exceptions.prev snap.exceptions)
    ∷ (if snap.pipeline_alive then none else edge_entry pipeline_dead now p.dead red (some (pos 1)))
    ∷ edge_entry bar_missing now p.bar c.bar_flow.level c.bar_flow.value
    ∷ edge_entry processing_latency now p.latency c.latency.level c.latency.value
    ∷ edge_entry memory_rss now p.memory c.memory.level c.memory.value
    ∷ []

-- `evaluate`
unfoldable pub evaluate : HealthMonitor → HealthSnapshot → HealthMonitor × HealthReport
unfolding count_sample checks_of note_each worst_of turn_day
evaluate m snap =
    let s = m.settings in
    let now = snap.sample_time in
    let start = started m.start_time now in
    let gaps = count_sample s.window_sec now snap.gaps_detected m.gaps in
    let reconnects = count_sample s.window_sec now snap.reconnects m.reconnects in
    let exceptions = count_sample s.window_sec now snap.exceptions m.exceptions in
    let c = checks_of s start snap gaps reconnects exceptions in
    let exception_level = graded (total exceptions.events) s.exception_yellow s.exception_red in
    let written =
      note_each (entries_of m snap c exception_level)
        (record { today = m.anomalies_today; date = m.anomalies_date; out = [] }) in
    let j = turn_day (day_of now) written in
    (
      record m {
        start_time = some start;
        gaps = gaps;
        reconnects = reconnects;
        exceptions = exceptions;
        prev_levels = record {
          dead = if snap.pipeline_alive then m.prev_levels.dead else red;
          bar = c.bar_flow.level;
          latency = c.latency.level;
          memory = c.memory.level;
        };
        anomalies_today = j.today;
        anomalies_date = j.date;
      },
      record {
        state = worst_of c;
        sample_time = now;
        checks = c;
        new_anomalies = j.out;
        anomalies_today = j.today;
      },
    )
