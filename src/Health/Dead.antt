-- ===== src/Health/Dead.antt =====
-- The anomaly of a pipeline that has died: it is recorded once, and never again.
use deltaengine.Prelude.{
  ℕ, ◌+◌, List, [], ◌∷◌, Option, none, some, Bool, true, false, not, ◌&&◌, ◌||◌, ltb, if◌then◌else◌,
  count, count-append, ◌≡◌, refl, ap, ◌∙◌, inl, inr, Bool-cases, on_if, arith,
}
use deltaengine.Health.{
  HealthSnapshot, HealthMonitor, Level, red, rank, Anomaly, pipeline_dead, bar_missing,
  processing_latency, memory_rss, day_of, Journal, turn_day, note, note_each, entries_of,
  edge_entry, evaluate, graded, total, Checks,
}

abbrev pub is_dead : Anomaly → Bool
is_dead a = elim a.type [ pipeline_dead ↦ true | _ ↦ false ]

-- How often a list of entries has the anomaly.
hits : List (Option Anomaly) → ℕ
hits [] = 0
hits (none ∷ es) = hits es
hits (some a ∷ es) = (if is_dead a then 1 else 0) + hits es

note-count :
    (a : Anomaly) (j : Journal)
    → count is_dead (note a j).out ≡ count is_dead j.out + (if is_dead a then 1 else 0)
unfolding note turn_day
note-count a j = ground (arith, count-append is_dead j.out (a ∷ []))

note_each-count :
    (es : List (Option Anomaly)) (j : Journal)
    → count is_dead (note_each es j).out ≡ count is_dead j.out + hits es
unfolding note_each hits
note_each-count [] j = omega arith
note_each-count (none ∷ es) j = note_each-count es j
note_each-count (some a ∷ es) j = omega (arith, note_each-count es (note a j), note-count a j)

turn_day-out : (day : ℕ) (j : Journal) → count is_dead (turn_day day j).out ≡ count is_dead j.out
unfolding turn_day
turn_day-out day j = ground arith

hits_other :
    (b : Bool) (a : Anomaly) (es : List (Option Anomaly))
    → is_dead a ≡ false
    → hits ((if b then some a else none) ∷ es) ≡ hits es
unfolding hits
hits_other true a es h = rw h (omega arith)
hits_other false a es h = refl

hits_dead :
    (b : Bool) (a : Anomaly) (es : List (Option Anomaly))
    → is_dead a ≡ true
    → hits ((if b then some a else none) ∷ es) ≡ (if b then 1 else 0) + hits es
unfolding hits
hits_dead true a es h = rw h
hits_dead false a es h = omega arith

hits-none : (es : List (Option Anomaly)) → hits (none ∷ es) ≡ hits es
unfolding hits
hits-none es = refl

hits_nil : hits [] ≡ 0
unfolding hits
hits_nil = refl

hits_entries :
    (m : HealthMonitor) (snap : HealthSnapshot) (c : Checks) (level : Level)
    → hits (entries_of m snap c level)
      ≡ (if not snap.pipeline_alive && ltb (rank m.prev_levels.dead) (rank red) then 1 else 0)
hits_entries m snap c level =
    hits_other _ _ _ refl
    ∙ hits_other _ _ _ refl
    ∙ hits_other _ _ _ refl
    ∙ on_if
        (λ o.
          hits (o ∷ behind)
          ≡ (if not snap.pipeline_alive && ltb (rank m.prev_levels.dead) (rank red) then 1 else 0))
        snap.pipeline_alive none _ (λ alive. rw alive (hits-none behind ∙ none_behind))
        (λ dead. rw dead (
          hits_dead (ltb (rank m.prev_levels.dead) (rank red)) _ behind refl
          ∙ ap (λ n. (if ltb (rank m.prev_levels.dead) (rank red) then 1 else 0) + n) none_behind
          ∙ omega arith))
  where
    behind : List (Option Anomaly)
    behind =
        edge_entry bar_missing snap.sample_time m.prev_levels.bar c.bar_flow.level c.bar_flow.value
        ∷ edge_entry processing_latency snap.sample_time m.prev_levels.latency c.latency.level
            c.latency.value
        ∷ edge_entry memory_rss snap.sample_time m.prev_levels.memory c.memory.level c.memory.value
        ∷ []

    none_behind : hits behind ≡ 0
    none_behind = hits_other _ _ _ refl ∙ hits_other _ _ _ refl ∙ hits_other _ _ _ refl ∙ hits_nil

-- One evaluation: the anomaly, and whether it is remembered.
evaluate_dead :
    (m : HealthMonitor) (snap : HealthSnapshot)
    → (count is_dead (evaluate m snap).1.new_anomalies
        ≡ (if not snap.pipeline_alive && ltb (rank m.prev_levels.dead) (rank red) then 1 else 0))
      × ((evaluate m snap).0.prev_levels.dead
          ≡ (if snap.pipeline_alive then m.prev_levels.dead else red))
unfolding evaluate
evaluate_dead m snap =
    let c = (evaluate m snap).1.checks in
    let s = m.settings in
    let level =
      graded (total (evaluate m snap).0.exceptions.events) s.exception_yellow s.exception_red in
    let start : Journal = record { today = m.anomalies_today; date = m.anomalies_date; out = [] } in
    (
      turn_day-out (day_of snap.sample_time) (note_each (entries_of m snap c level) start)
          ∙ note_each-count (entries_of m snap c level) start
          ∙ omega (arith, hits_entries m snap c level),
      refl,
    )

-- How often a run reports the anomaly, and whether it finds the pipeline dead.
abbrev pub deaths_reported : HealthMonitor → List HealthSnapshot → ℕ
deaths_reported m [] = 0
deaths_reported m (s ∷ ss) =
    count is_dead (evaluate m s).1.new_anomalies + deaths_reported (evaluate m s).0 ss

abbrev pub finds_dead : List HealthSnapshot → Bool
finds_dead [] = false
finds_dead (s ∷ ss) = not s.pipeline_alive || finds_dead ss

-- Over any samples, the death of the pipeline is reported exactly once if a sample finds it dead and the
-- monitor has not reported it before, and else never: so however often it comes back to life and
-- dies again, only the first death is reported.
pub deaths_reported_once :
    (ss : List HealthSnapshot) (m : HealthMonitor)
    → deaths_reported m ss
      ≡ (if finds_dead ss && ltb (rank m.prev_levels.dead) (rank red) then 1 else 0)
deaths_reported_once [] m = refl
deaths_reported_once (s ∷ ss) m =
    let rest = deaths_reported_once ss (evaluate m s).0 in
    let (here, after) = evaluate_dead m s in
    elim (Bool-cases s.pipeline_alive) [ inl alive ↦ ground arith | inr dead ↦ ground arith ]
