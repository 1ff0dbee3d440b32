-- ===== src/Health/Counters.antt =====
-- What the checks of the counters show after any samples: the rises of the counter in the window.
use deltaengine.Prelude.{
  ℕ, ◌≤◌, List, [], ◌∷◌, ◌++◌, map, none, some, Bool, true, false, pos, ltb, if◌then◌else◌,
  All-append, ◌≡◌, refl, sym, ap, subst, ◌∙◌, inl, inr, Bool-cases, arith,
}
use mathlib.Core.List.{append-nil, append_assoc}
use deltaengine.Trades.{Time}
use deltaengine.Health.{
  HealthSnapshot, HealthMonitor, Checks, Check, Counter, new_counter, total, rise, count_sample,
  checks_of, evaluate,
}
use deltaengine.Health.Windows.{
  rises, within, Ascending, end_of, prune-within, within-append, within-within, AreUpTo,
  AreUpTo-mono, Ascending-snoc, within-Ascending, within-AreUpTo,
}

-- The counter holds the rises so far, as far as the window goes.
record Holds (window : ℕ) (now : Time) (c : Counter) (rs : List (Time × ℕ)) : Type 0 where
  pub held : c.events ≡ within window now rs
  pub ordered : Ascending 0 rs
  pub early : AreUpTo now rs

count_sample-Holds :
    (window : ℕ) (now now' : Time) (v : ℕ) (c : Counter) (rs : List (Time × ℕ))
    → now ≤ now'
    → Holds window now c rs
    → Holds window now'
        (count_sample window now' v c)
        (rs ++ (if ltb 0 (rise c.prev v) then (now', rise c.prev v) ∷ [] else []))
unfolding count_sample
count_sample-Holds window now now' v c rs later h = elim (Bool-cases (ltb 0 (rise c.prev v))) [
  | inl up ↦ rw up (record {
    held =
        prune-within window now' 0 (c.events ++ x ∷ []) (
          subst (λ es. Ascending 0 (es ++ x ∷ [])) (sym h.held)
            (Ascending-snoc 0 now' (rise c.prev v) (within window now rs) (omega arith)
              (within-AreUpTo window now now' rs early)
              (within-Ascending window now 0 rs h.ordered)))
        ∙ ap (λ es. within window now' (es ++ x ∷ [])) h.held
        ∙ within-append window now' (within window now rs) (x ∷ [])
        ∙ ap (λ es. es ++ within window now' (x ∷ [])) (within-within window now now' rs later)
        ∙ sym (within-append window now' rs (x ∷ []));
    ordered = Ascending-snoc 0 now' (rise c.prev v) rs (omega arith) early h.ordered;
    early = All-append _ rs (x ∷ []) early (omega arith, tt);
  })
  | inr same ↦ rw same (
      rw append-nil (record {
        held =
            prune-within window now' 0 c.events
              (subst (Ascending 0) (sym h.held) (within-Ascending window now 0 rs h.ordered))
            ∙ ap (within window now') h.held
            ∙ within-within window now now' rs later;
        ordered = h.ordered;
        early = early;
      }))
]
  where
    x : Time × ℕ
    x = (now', rise c.prev v)

    early : AreUpTo now' rs
    early = AreUpTo-mono now now' rs later h.early

count_all : ℕ → Counter → List (Time × ℕ) → Counter
count_all window c [] = c
count_all window c ((t, v) ∷ ss) = count_all window (count_sample window t v c) ss

count_all-Holds :
    (window : ℕ) (last : Time) (ss : List (Time × ℕ)) (c : Counter) (rs : List (Time × ℕ))
    → Ascending last ss
    → Holds window last c rs
    → Holds window (end_of last ss) (count_all window c ss) (rs ++ rises c.prev ss)
unfolding count_all rises count_sample
count_all-Holds window last [] c rs a h = rw append-nil h
count_all-Holds window last ((t, v) ∷ ss) c rs a h =
    subst (Holds window (end_of t ss) (count_all window (count_sample window t v c) ss))
      (regroup (ltb 0 (rise c.prev v)))
      (count_all-Holds window t ss (count_sample window t v c) _ a.1
        (count_sample-Holds window last t v c rs a.0 h))
  where
    regroup :
        (b : Bool)
        → (rs ++ (if b then (t, rise c.prev v) ∷ [] else [])) ++ rises (some v) ss
          ≡ rs ++ (if b then (t, rise c.prev v) ∷ rises (some v) ss else rises (some v) ss)
    regroup true = append_assoc rs ((t, rise c.prev v) ∷ []) (rises (some v) ss)
    regroup false = ap (λ xs. xs ++ rises (some v) ss) (append-nil rs)

-- The three counters.
pub data Counted : Type 0 where
  gaps reconnects exceptions : Counted

abbrev pub sample_of : Counted → HealthSnapshot → ℕ
sample_of gaps s = s.gaps_detected
sample_of reconnects s = s.reconnects
sample_of exceptions s = s.exceptions

abbrev pub counter_of : Counted → HealthMonitor → Counter
counter_of gaps m = m.gaps
counter_of reconnects m = m.reconnects
counter_of exceptions m = m.exceptions

abbrev pub check_of : Counted → Checks → Check
check_of gaps c = c.gaps
check_of reconnects c = c.reconnects
check_of exceptions c = c.pipeline

abbrev pub samples : Counted → List HealthSnapshot → List (Time × ℕ)
samples k ss = map (λ s. (s.sample_time, sample_of k s)) ss

-- The monitor behind any snapshots.
unfoldable pub run : HealthMonitor → List HealthSnapshot → HealthMonitor
run m [] = m
run m (s ∷ ss) = run (evaluate m s).0 ss

counter-evaluate :
    (k : Counted) (m : HealthMonitor) (s : HealthSnapshot)
    → counter_of k (evaluate m s).0
      ≡ count_sample m.settings.window_sec s.sample_time (sample_of k s) (counter_of k m)
unfolding evaluate
counter-evaluate gaps m s = refl
counter-evaluate reconnects m s = refl
counter-evaluate exceptions m s = refl

settings-evaluate :
    (m : HealthMonitor) (s : HealthSnapshot) → (evaluate m s).0.settings ≡ m.settings
unfolding evaluate
settings-evaluate m s = refl

counter-run :
    (k : Counted) (ss : List HealthSnapshot) (m : HealthMonitor) (s : HealthSnapshot)
    → counter_of k (evaluate (run m ss) s).0
      ≡ count_all m.settings.window_sec (counter_of k m) (samples k (ss ++ s ∷ []))
unfolding run count_all
counter-run k [] m s = counter-evaluate k m s
counter-run k (t ∷ ss) m s =
    counter-run k ss (evaluate m t).0 s
    ∙ ap (λ x. count_all x.window_sec (counter_of k (evaluate m t).0) (samples k (ss ++ s ∷ [])))
        (settings-evaluate m t)
    ∙ ap (λ c. count_all m.settings.window_sec c (samples k (ss ++ s ∷ [])))
        (counter-evaluate k m t)

-- A check of a counter shows the sum of what it holds.
check-evaluate :
    (k : Counted) (m : HealthMonitor) (s : HealthSnapshot)
    → (check_of k (evaluate m s).1.checks).value
      ≡ some (pos (total (counter_of k (evaluate m s).0).events))
unfolding evaluate checks_of
check-evaluate gaps m s = refl
check-evaluate reconnects m s = refl
check-evaluate exceptions m s = elim (Bool-cases s.pipeline_alive) [ inl e ↦ rw e | inr e ↦ rw e ]

end-snoc :
    (k : Counted) (last : Time) (ss : List HealthSnapshot) (s : HealthSnapshot)
    → end_of last (samples k (ss ++ s ∷ [])) ≡ s.sample_time
end-snoc k last [] s = refl
end-snoc k last (t ∷ ss) s = end-snoc k t.sample_time ss s

-- Whatever samples a new monitor has seen, in the order of their times: the value of each of its
-- three counter checks is exactly the sum of the rises of the counter, from one sample to the next,
-- at the samples that are less than `window_sec` + 1 seconds ago, so that a rise stays for almost a
-- second longer than the window.
pub evaluate_window :
    (k : Counted) (ss : List HealthSnapshot) (m : HealthMonitor) (s : HealthSnapshot)
    → counter_of k m ≡ new_counter
    → Ascending 0 (samples k (ss ++ s ∷ []))
    → (check_of k (evaluate (run m ss) s).1.checks).value
      ≡ some (
          pos (
            total
              (within m.settings.window_sec s.sample_time (rises none (samples k (ss ++ s ∷ []))))))
unfolding within
evaluate_window k ss m s fresh a =
    let w = m.settings.window_sec in
    let h =
      count_all-Holds w 0 (samples k (ss ++ s ∷ [])) new_counter [] a
        (record { held = refl; ordered = tt; early = tt }) in
    check-evaluate k (run m ss) s
    ∙ ap (λ c. some (pos (total c.events)))
        (counter-run k ss m s ∙ ap (λ c. count_all w c (samples k (ss ++ s ∷ []))) fresh)
    ∙ ap (λ es. some (pos (total es))) h.held
    ∙ ap (λ now. some (pos (total (within w now (rises none (samples k (ss ++ s ∷ [])))))))
        (end-snoc k 0 ss s)
