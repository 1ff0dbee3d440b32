-- ===== src/FlowResponse/Outcomes/Firsts.antt =====
-- What the outcomes of a snapshot are to be, horizon by horizon: each is given by the first trade that
-- reaches the horizon, with the extremes of the prices up to it.
use deltaengine.Prelude.{
  ℕ, ◌+◌, ◌*◌, List, [], ◌∷◌, map, Option, none, some, true, false, Decimal, ℤ, pos, negsuc, ◌+ℤ◌,
  ◌-ℤ◌, ◌*ℤ◌, ◌<ℤ◌, ltb, leb, ltb_ℤ, leb_ℤ, if◌then◌else◌, sum_by, sum_by-append, sum_opt, +ℤ-zero,
  zero-+ℤ, All, ◌≡◌, refl, sym, ap, ap₂, ◌∙◌, inl, inr, Bool-cases, arith, int_laws,
}
use deltaengine.Trades.{Trade}
use deltaengine.VolumeRef.{Quotient}
use deltaengine.FlowResponse.{FlowResponseSnapshot, quotient}
use deltaengine.FlowResponse.Outcomes.{
  FlowResponseOutcome, PendingOutcome, is_due, due, not_due, return_bps, outcome_of, excursion,
  keep_if_waiting, observe_due, observe_one, observe_each, Observed,
}

-- The price over a positive base, in basis points.
abbrev pub size_of : ℤ → ℕ
size_of (pos n) = n
size_of (negsuc n) = 0

abbrev pub bps : Decimal → Decimal → Quotient
bps base price = record { numerator = (price -ℤ base) *ℤ pos 10_000; denominator = size_of base }

-- The outcome of a snapshot for one horizon, with the extremes so far: trades before the snapshot's
-- time are passed over, the others extend the extremes, and the first that is at the horizon or
-- later gives the outcome.
unfoldable pub first_outcome :
    FlowResponseSnapshot → ℕ → Decimal → Decimal → List Trade → Option FlowResponseOutcome
first_outcome s h high low [] = none
first_outcome s h high low (t ∷ ts) =
    let up = if ltb_ℤ high t.price then t.price else high in
    let down = if ltb_ℤ t.price low then t.price else low in
    let passed = first_outcome s h high low ts in
    let later = first_outcome s h up down ts in
    if ltb t.event_time s.event_time
    then passed
    else if leb (s.event_time + h * 1_000_000) t.event_time
    then some (record {
      event_time = s.event_time;
      symbol = s.symbol;
      window_sec = s.window_sec;
      state = s.state;
      horizon_sec = h;
      observed_price = s.last_price;
      outcome_time = t.event_time;
      outcome_price = t.price;
      forward_return_bps = bps s.last_price t.price;
      max_up_bps = bps s.last_price up;
      max_down_bps = bps s.last_price down;
    })
    else later

return_bps-bps : (base price : Decimal) → pos 0 <ℤ base → return_bps base price ≡ bps base price
unfolding quotient
return_bps-bps (pos n) price h =
    let same : n + 0 ≡ n = omega arith in
    let sign : ltb_ℤ (pos n) (pos 0) ≡ false = ground arith in rw (sign, same) refl
return_bps-bps (negsuc n) price h = absurd (omega (arith, h))

module _ (g : FlowResponseOutcome → ℤ) where
  -- The weight of the outcomes to come of a pending one, and of all of them.
  abbrev pub future : PendingOutcome → List Trade → List ℕ → ℤ
  future p ts hs =
      sum_by (λ h. sum_opt g (first_outcome p.snapshot h p.high_price p.low_price ts)) hs

  abbrev pub all_future : List PendingOutcome → List Trade → ℤ
  all_future ps ts = sum_by (λ p. future p ts p.remaining_horizons) ps

  future_early :
      (p : PendingOutcome) (t : Trade) (ts : List Trade) (hs : List ℕ)
      → ltb t.event_time p.snapshot.event_time ≡ true
      → future p (t ∷ ts) hs ≡ future p ts hs
  unfolding first_outcome
  future_early p t ts [] e = refl
  future_early p t ts (h ∷ hs) e = ap₂ (λ a b. a +ℤ b) (rw e refl) (future_early p t ts hs e)

  outcome_first :
      (p : PendingOutcome) (t : Trade) (ts : List Trade) (h : ℕ)
      → pos 0 <ℤ p.snapshot.last_price
      → ltb t.event_time p.snapshot.event_time ≡ false
      → is_due t.event_time p.snapshot.event_time h ≡ true
      → first_outcome p.snapshot h p.high_price p.low_price (t ∷ ts)
        ≡ some (outcome_of (excursion p t.price) t h)
  unfolding first_outcome outcome_of
  outcome_first p t ts h positive e d =
      rw
        (
          e,
          d,
          return_bps-bps p.snapshot.last_price t.price positive,
          return_bps-bps p.snapshot.last_price (excursion p t.price).high_price positive,
          return_bps-bps p.snapshot.last_price (excursion p t.price).low_price positive,
        )
        refl

  first_later :
      (p : PendingOutcome) (t : Trade) (ts : List Trade) (h : ℕ)
      → ltb t.event_time p.snapshot.event_time ≡ false
      → is_due t.event_time p.snapshot.event_time h ≡ false
      → first_outcome p.snapshot h p.high_price p.low_price (t ∷ ts)
        ≡ first_outcome p.snapshot h
            (excursion p t.price).high_price
            (excursion p t.price).low_price
            ts
  unfolding first_outcome
  first_later p t ts h e d = rw (e, d) refl

  -- The horizons that the trade reaches have their outcomes now, the others later.
  future_next :
      (p : PendingOutcome) (t : Trade) (ts : List Trade) (hs : List ℕ)
      → pos 0 <ℤ p.snapshot.last_price
      → ltb t.event_time p.snapshot.event_time ≡ false
      → future p (t ∷ ts) hs
        ≡ sum_by
            (λ h. g (outcome_of (excursion p t.price) t h))
            (due t.event_time p.snapshot.event_time hs)
          +ℤ future (excursion p t.price) ts (not_due t.event_time p.snapshot.event_time hs)
  unfolding due not_due
  future_next p t ts [] positive e = sym (zero-+ℤ (pos 0))
  future_next p t ts (h ∷ hs) positive e =
      let rest = future_next p t ts hs positive e in
      elim (Bool-cases (is_due t.event_time p.snapshot.event_time h)) [
        | inl d ↦
            rw d
              (ap₂ (λ o b. sum_opt g o +ℤ b) (outcome_first p t ts h positive e d) rest ∙ now _ _ _)
        | inr d ↦ rw d (ap₂ (λ o b. sum_opt g o +ℤ b) (first_later p t ts h e d) rest ∙ later _ _ _)
      ]
    where
      now : (x y z : ℤ) → x +ℤ (y +ℤ z) ≡ (x +ℤ y) +ℤ z
      now x y z = omega int_laws

      later : (x y z : ℤ) → x +ℤ (y +ℤ z) ≡ y +ℤ (x +ℤ z)
      later x y z = omega int_laws

  sum_by-map :
      (f : ℕ → FlowResponseOutcome) (hs : List ℕ) → sum_by g (map f hs) ≡ sum_by (λ h. g (f h)) hs
  sum_by-map f [] = refl
  sum_by-map f (h ∷ hs) = ap (λ z. g (f h) +ℤ z) (sum_by-map f hs)

  future-keep :
      (p : PendingOutcome) (ts : List Trade) (hs : List ℕ)
      → all_future (keep_if_waiting p hs) ts ≡ future p ts hs
  future-keep p ts [] = refl
  future-keep p ts (h ∷ hs) = +ℤ-zero (future p ts (h ∷ hs))

  -- The outcomes of an observation, and those still to come behind it.
  abbrev pub weight : Observed → List Trade → ℤ
  weight o ts = sum_by g o.outcomes +ℤ all_future o.keep ts

  weight-observe_due :
      (p : PendingOutcome) (t : Trade) (ts : List Trade) (ds later : List ℕ)
      → pos 0 <ℤ p.snapshot.last_price
      → weight (observe_due p t ds later) ts
        ≡ sum_by (λ h. g (outcome_of p t h)) ds +ℤ future p ts later
  unfolding observe_due
  weight-observe_due p t ts [] later positive = ap (λ z. pos 0 +ℤ z) (future-keep p ts later)
  weight-observe_due p t ts (h ∷ hs) later positive =
      let good : leb_ℤ p.snapshot.last_price (pos 0) ≡ false = ground (arith, positive) in
      rw good (ap₂ (λ a b. a +ℤ b) (sum_by-map (outcome_of p t) (h ∷ hs)) (future-keep p ts later))

  weight-observe_one :
      (p : PendingOutcome) (t : Trade) (ts : List Trade)
      → pos 0 <ℤ p.snapshot.last_price
      → weight (observe_one t p) ts ≡ future p (t ∷ ts) p.remaining_horizons
  unfolding observe_one
  weight-observe_one p t ts positive = elim (Bool-cases (ltb t.event_time p.snapshot.event_time)) [
    | inl e ↦ rw e (
        zero-+ℤ _
        ∙ +ℤ-zero (future p ts p.remaining_horizons)
        ∙ sym (future_early p t ts p.remaining_horizons e))
    | inr e ↦ rw e (
        weight-observe_due (excursion p t.price) t ts
          (due t.event_time p.snapshot.event_time p.remaining_horizons)
          (not_due t.event_time p.snapshot.event_time p.remaining_horizons) positive
        ∙ sym (future_next p t ts p.remaining_horizons positive e))
  ]

  pub weight-observe_each :
      (ps : List PendingOutcome) (t : Trade) (ts : List Trade)
      → All (λ p. pos 0 <ℤ p.snapshot.last_price) ps
      → weight (observe_each t ps) ts ≡ all_future ps (t ∷ ts)
  unfolding observe_each
  weight-observe_each [] t ts a = zero-+ℤ (pos 0)
  weight-observe_each (p ∷ ps) t ts a =
      let o = observe_one t p in
      let r = observe_each t ps in
      ap₂ (λ x y. x +ℤ y) (sum_by-append g o.outcomes r.outcomes)
        (sum_by-append (λ q. future q ts q.remaining_horizons) o.keep r.keep)
      ∙ regroup _ _ _ _
      ∙ ap₂ (λ x y. x +ℤ y) (weight-observe_one p t ts a.0) (weight-observe_each ps t ts a.1)
    where
      regroup : (x y z w : ℤ) → (x +ℤ y) +ℤ (z +ℤ w) ≡ (x +ℤ z) +ℤ (y +ℤ w)
      regroup x y z w = omega int_laws
