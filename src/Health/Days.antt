-- ===== src/Health/Days.antt =====
-- The count of the anomalies of a day.
use deltaengine.Prelude.{
  ℕ, ◌+◌, List, [], ◌∷◌, ◌++◌, Option, none, some, Bool, true, false, pos, ap, subst, nat_eq,
  if◌then◌else◌, All, length, length-append, ◌≡◌, refl, on_if, arith,
}
use deltaengine.Health.Counters.{run}
use deltaengine.Health.{
  HealthSnapshot, HealthMonitor, Checks, Level, Anomaly, Journal, day_of, is_day, turn_day, note,
  note_each, entries_of, edge_entry, pipeline_dead, red, graded, total, evaluate,
}

-- The anomalies of the day that a journal, or a monitor, counts.
abbrev pub counted_on : ℕ → Option ℕ → ℕ → ℕ
counted_on day date today = if is_day date day then today else 0

-- From one journal to another, the count of the day has gone up by as many anomalies as were written.
record Writes (day : ℕ) (j k : Journal) : Type 0 where
  pub balance :
      counted_on day k.date k.today + length j.out ≡ counted_on day j.date j.today + length k.out

Writes-refl : (day : ℕ) (j : Journal) → Writes day j j
Writes-refl day j = record { balance = refl }

Writes-trans : (day : ℕ) (i j k : Journal) → Writes day i j → Writes day j k → Writes day i k
Writes-trans day i j k h g = record { balance = omega (arith, h.balance, g.balance) }

turn_day-Writes : (day : ℕ) (j : Journal) → Writes day j (turn_day day j)
unfolding turn_day
turn_day-Writes day j = record { balance = ground arith }

note-Writes : (day : ℕ) (a : Anomaly) (j : Journal) → day_of a.time ≡ day → Writes day j (note a j)
unfolding note turn_day
note-Writes day a j e = record { balance = ground (arith, length-append j.out (a ∷ [])) }

-- The entry is of the day, if there is one.
record IsOn (day : ℕ) (o : Option Anomaly) : Type 0 where
  pub on : (a : Anomaly) → o ≡ some a → day_of a.time ≡ day

note_each-Writes :
    (day : ℕ) (es : List (Option Anomaly)) (j : Journal)
    → All (IsOn day) es
    → Writes day j (note_each es j)
unfolding note_each
note_each-Writes day [] j e = Writes-refl day j
note_each-Writes day (none ∷ es) j e = note_each-Writes day es j e.1
note_each-Writes day (some a ∷ es) j e =
    Writes-trans day j (note a j) (note_each es (note a j)) (note-Writes day a j (e.0.on a refl))
      (note_each-Writes day es (note a j) e.1)

none-IsOn : (day : ℕ) → IsOn day none
none-IsOn day = record { on = λ a e. cc }

entry-IsOn :
    (day : ℕ) (b : Bool) (a : Anomaly) → day_of a.time ≡ day → IsOn day (if b then some a else none)
entry-IsOn day true a e = record { on = λ c f. ground arith }
entry-IsOn day false a e = none-IsOn day

entries_of-IsOn :
    (day : ℕ) (m : HealthMonitor) (snap : HealthSnapshot) (c : Checks) (level : Level)
    → day_of snap.sample_time ≡ day
    → All (IsOn day) (entries_of m snap c level)
entries_of-IsOn day m snap c level e =
    let dead : IsOn day (
        if snap.pipeline_alive
        then none
        else edge_entry pipeline_dead snap.sample_time m.prev_levels.dead red (some (pos 1))) =
      on_if (IsOn day) snap.pipeline_alive none _ (λ _. none-IsOn day)
        (λ _. entry-IsOn day _ _ e) in
    (
      entry-IsOn day _ _ e,
      (
        entry-IsOn day _ _ e,
        (
          entry-IsOn day _ _ e,
          (dead, (entry-IsOn day _ _ e, (entry-IsOn day _ _ e, (entry-IsOn day _ _ e, tt)))),
        ),
      ),
    )

-- The journal at the end of an evaluation that began with nothing written.
turned :
    (day : ℕ) (j k : Journal)
    → Writes day j k
    → j.out ≡ []
    → ((turn_day day k).today ≡ counted_on day j.date j.today + length (turn_day day k).out)
      × (counted_on day (turn_day day k).date (turn_day day k).today ≡ (turn_day day k).today)
unfolding turn_day
turned day j k w e = let b = w.balance in ground (arith, ap length e)

-- One evaluation: the count of its day, in its report and behind it.
evaluate_counts :
    (m : HealthMonitor) (snap : HealthSnapshot)
    → ((evaluate m snap).1.anomalies_today
        ≡ counted_on (day_of snap.sample_time) m.anomalies_date m.anomalies_today
          + length (evaluate m snap).1.new_anomalies)
      × (counted_on
            (day_of snap.sample_time)
            (evaluate m snap).0.anomalies_date
            (evaluate m snap).0.anomalies_today
          ≡ (evaluate m snap).1.anomalies_today)
unfolding evaluate
evaluate_counts m snap =
    let day = day_of snap.sample_time in
    let c = (evaluate m snap).1.checks in
    let s = m.settings in
    let level =
      graded (total (evaluate m snap).0.exceptions.events) s.exception_yellow s.exception_red in
    let start : Journal = record { today = m.anomalies_today; date = m.anomalies_date; out = [] } in
    turned day start (note_each (entries_of m snap c level) start)
      (note_each-Writes day (entries_of m snap c level) start
        (entries_of-IsOn day m snap c level refl))
      refl

-- The anomalies that a run reports.
abbrev pub reported : HealthMonitor → List HealthSnapshot → ℕ
reported m [] = 0
reported m (s ∷ ss) = length (evaluate m s).1.new_anomalies + reported (evaluate m s).0 ss

-- On one day, however many snapshots come: the number of anomalies that a report gives for its day is
-- exactly the number of those that the reports up to it list, and of those that the monitor had
-- counted before if it was of this day already.
pub evaluate_today :
    (day : ℕ) (ss : List HealthSnapshot) (m : HealthMonitor) (s : HealthSnapshot)
    → All (λ t. day_of t.sample_time ≡ day) (ss ++ s ∷ [])
    → (evaluate (run m ss) s).1.anomalies_today
      ≡ counted_on day m.anomalies_date m.anomalies_today + reported m (ss ++ s ∷ [])
unfolding run
evaluate_today day [] m s (e, u) =
    subst
      (λ d.
        (evaluate m s).1.anomalies_today
        ≡ counted_on d m.anomalies_date m.anomalies_today
          + (length (evaluate m s).1.new_anomalies + 0))
      e (omega (arith, (evaluate_counts m s).0))
evaluate_today day (t ∷ ss) m s (e, u) =
    let rest = evaluate_today day ss (evaluate m t).0 s u in
    let here =
      subst
        (λ d.
          ((evaluate m t).1.anomalies_today
            ≡ counted_on d m.anomalies_date m.anomalies_today
              + length (evaluate m t).1.new_anomalies)
          × (counted_on d (evaluate m t).0.anomalies_date (evaluate m t).0.anomalies_today
              ≡ (evaluate m t).1.anomalies_today))
        e (evaluate_counts m t) in
    omega (arith, rest, here.0, here.1)
