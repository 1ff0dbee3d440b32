-- ===== src/FlowResponse/Outcomes/Horizons.antt =====
-- One trade, and the horizons that it reaches.
use deltaengine.Prelude.{
  ℕ, ◌+◌, ◌*◌, ◌≤◌, ◌<◌, List, [], ◌∷◌, ◌++◌, map, true, Decimal, pos, ◌-ℤ◌, ◌≤ℤ◌, ◌<ℤ◌, ltb, leb_ℤ,
  All, All-append, length, length-append, length-map, ◌≡◌, refl, subst, on_if, arith, int_laws,
  *ℤ-le-mono,
}
use deltaengine.Trades.{Time, Trade}
use deltaengine.FlowResponse.{quotient, max_of, min_of}
use deltaengine.FlowResponse.Detector.{is_valid_trade}
use deltaengine.FlowResponse.Outcomes.{
  FlowResponseOutcome, PendingOutcome, FlowResponseOutcomeTracker, is_due, due, not_due, return_bps,
  outcome_of, excursion, keep_if_waiting, observe_due, observe_one, observe_each, observe_trade,
  Observed,
}

-- The horizons that are still waited for.
abbrev pub waiting : List PendingOutcome → ℕ
waiting [] = 0
waiting (p ∷ ps) = length p.remaining_horizons + waiting ps

-- The observed price is positive, and the extremes are in order.
pub record IsSound (p : PendingOutcome) : Type 0 where
  pub positive : pos 0 <ℤ p.snapshot.last_price
  pub ordered : p.low_price ≤ℤ p.high_price

-- Nothing is waited for that the time has reached.
abbrev pub IsAwaiting : Time → PendingOutcome → Type 0
IsAwaiting now p = All (λ h. now < p.snapshot.event_time + h * 1_000_000) p.remaining_horizons

-- The outcome is given at its horizon or later, for a positive price, and its return lies between
-- the two extremes that it gives, all three over the observed price.
pub record IsOutcome (o : FlowResponseOutcome) : Type 0 where
  pub reached : o.event_time + o.horizon_sec * 1_000_000 ≤ o.outcome_time
  pub positive : pos 0 <ℤ o.observed_price
  pub down : o.max_down_bps.numerator ≤ℤ o.forward_return_bps.numerator
  pub up : o.forward_return_bps.numerator ≤ℤ o.max_up_bps.numerator

length-due :
    (now start : Time) (hs : List ℕ)
    → length (due now start hs) + length (not_due now start hs) ≡ length hs
unfolding due not_due
length-due now start [] = refl
length-due now start (h ∷ hs) = ground (arith, length-due now start hs)

due_reached :
    (now start : Time) (hs : List ℕ) → All (λ h. start + h * 1_000_000 ≤ now) (due now start hs)
unfolding due
due_reached now start [] = tt
due_reached now start (h ∷ hs) =
    on_if (All (λ k. start + k * 1_000_000 ≤ now)) (is_due now start h) _ _
      (λ e. (ground arith, due_reached now start hs)) (λ _. due_reached now start hs)

not_due_later :
    (now start : Time) (hs : List ℕ) → All (λ h. now < start + h * 1_000_000) (not_due now start hs)
unfolding not_due
not_due_later now start [] = tt
not_due_later now start (h ∷ hs) =
    on_if (All (λ k. now < start + k * 1_000_000)) (is_due now start h) _ _
      (λ _. not_due_later now start hs) (λ e. (ground arith, not_due_later now start hs))

return_bps-mono :
    (base a b : Decimal)
    → pos 0 <ℤ base
    → a ≤ℤ b
    → (return_bps base a).numerator ≤ℤ (return_bps base b).numerator
unfolding quotient
return_bps-mono base a b h k =
    let less = *ℤ-le-mono (a -ℤ base) (b -ℤ base) 10_000 (omega int_laws) in ground arith

outcome_of-IsOutcome :
    (p : PendingOutcome) (t : Trade) (h : ℕ)
    → pos 0 <ℤ p.snapshot.last_price
    → p.snapshot.event_time + h * 1_000_000 ≤ t.event_time
    → IsOutcome (outcome_of (excursion p t.price) t h)
unfolding outcome_of
outcome_of-IsOutcome p t h positive reached = record {
  reached = reached;
  positive = positive;
  down =
      return_bps-mono p.snapshot.last_price (min_of p.low_price t.price) t.price positive
        (ground arith);
  up =
      return_bps-mono p.snapshot.last_price t.price (max_of p.high_price t.price) positive
        (ground arith);
}

outcomes-IsOutcome :
    (p : PendingOutcome) (t : Trade) (hs : List ℕ)
    → pos 0 <ℤ p.snapshot.last_price
    → All (λ h. p.snapshot.event_time + h * 1_000_000 ≤ t.event_time) hs
    → All IsOutcome (map (outcome_of (excursion p t.price) t) hs)
outcomes-IsOutcome p t [] positive a = tt
outcomes-IsOutcome p t (h ∷ hs) positive a =
    (outcome_of-IsOutcome p t h positive a.0, outcomes-IsOutcome p t hs positive a.1)

-- What a trade does with pending outcomes that waited for `n` horizons.
pub record Settles (now : Time) (n : ℕ) (o : Observed) : Type 0 where
  pub sound : All IsSound o.keep
  pub awaiting : All (IsAwaiting now) o.keep
  pub outcomes : All IsOutcome o.outcomes
  pub accounts : length o.outcomes + waiting o.keep ≡ n
  pub none_rejected : o.rejected ≡ 0

keep_if_waiting-Settles :
    (now : Time) (p : PendingOutcome) (hs : List ℕ) (os : List FlowResponseOutcome)
    → IsSound p
    → All (λ h. now < p.snapshot.event_time + h * 1_000_000) hs
    → All IsOutcome os
    → Settles now
        (length os + length hs)
        (record { keep = keep_if_waiting p hs; outcomes = os; rejected = 0 })
keep_if_waiting-Settles now p [] os s later right = record {
  sound = tt;
  awaiting = tt;
  outcomes = right;
  accounts = refl;
  none_rejected = refl;
}
keep_if_waiting-Settles now p (h ∷ hs) os s later right = record {
  sound = (record { positive = s.positive; ordered = s.ordered }, tt);
  awaiting = (later, tt);
  outcomes = right;
  accounts = omega arith;
  none_rejected = refl;
}

excursion-IsSound : (p : PendingOutcome) (price : Decimal) → IsSound p → IsSound (excursion p price)
excursion-IsSound p price s =
    let o = s.ordered in record { positive = s.positive; ordered = ground arith }

observe_due-Settles :
    (t : Trade) (p : PendingOutcome) (ds later : List ℕ)
    → IsSound p
    → All (λ h. p.snapshot.event_time + h * 1_000_000 ≤ t.event_time) ds
    → All (λ h. t.event_time < p.snapshot.event_time + h * 1_000_000) later
    → Settles t.event_time (length ds + length later) (observe_due (excursion p t.price) t ds later)
unfolding observe_due
observe_due-Settles t p [] later s reached after =
    keep_if_waiting-Settles t.event_time (excursion p t.price) later []
      (excursion-IsSound p t.price s) after tt
observe_due-Settles t p (h ∷ hs) later s reached after =
    on_if (Settles t.event_time (length (h ∷ hs) + length later))
      (leb_ℤ p.snapshot.last_price (pos 0)) _ _ (λ bad. absurd (let g = s.positive in ground arith))
      (λ _.
        subst
          (λ n. Settles t.event_time (n + length later) (record {
            keep = keep_if_waiting (excursion p t.price) later;
            outcomes = map (outcome_of (excursion p t.price) t) (h ∷ hs);
            rejected = 0;
          }))
          (length-map (outcome_of (excursion p t.price) t) (h ∷ hs))
          (keep_if_waiting-Settles t.event_time (excursion p t.price) later
            (map (outcome_of (excursion p t.price) t) (h ∷ hs)) (excursion-IsSound p t.price s)
            after (outcomes-IsOutcome p t (h ∷ hs) s.positive reached)))

awaiting_early :
    (now start : Time) (hs : List ℕ) → now < start → All (λ h. now < start + h * 1_000_000) hs
awaiting_early now start [] h = tt
awaiting_early now start (k ∷ hs) h = (omega arith, awaiting_early now start hs h)

observe_one-Settles :
    (t : Trade) (p : PendingOutcome)
    → IsSound p
    → Settles t.event_time (length p.remaining_horizons) (observe_one t p)
unfolding observe_one
observe_one-Settles t p s =
    let start = p.snapshot.event_time in
    on_if (Settles t.event_time (length p.remaining_horizons)) (ltb t.event_time start) _ _
      (λ early. record {
        sound = (s, tt);
        awaiting = (awaiting_early t.event_time start p.remaining_horizons (ground arith), tt);
        outcomes = tt;
        accounts = omega arith;
        none_rejected = refl;
      })
      (λ _.
        subst
          (λ n. Settles t.event_time n (
            observe_due (excursion p t.price) t (due t.event_time start p.remaining_horizons)
              (not_due t.event_time start p.remaining_horizons)))
          (length-due t.event_time start p.remaining_horizons)
          (observe_due-Settles t p (due t.event_time start p.remaining_horizons)
            (not_due t.event_time start p.remaining_horizons) s
            (due_reached t.event_time start p.remaining_horizons)
            (not_due_later t.event_time start p.remaining_horizons)))

pub waiting-append : (ps qs : List PendingOutcome) → waiting (ps ++ qs) ≡ waiting ps + waiting qs
waiting-append [] qs = omega arith
waiting-append (p ∷ ps) qs = omega (arith, waiting-append ps qs)

pub observe_each-Settles :
    (t : Trade) (ps : List PendingOutcome)
    → All IsSound ps
    → Settles t.event_time (waiting ps) (observe_each t ps)
unfolding observe_each
observe_each-Settles t [] s = record {
  sound = tt;
  awaiting = tt;
  outcomes = tt;
  accounts = refl;
  none_rejected = refl;
}
observe_each-Settles t (p ∷ ps) s =
    let one = observe_one-Settles t p s.0 in
    let rest = observe_each-Settles t ps s.1 in
    let o = observe_one t p in
    let r = observe_each t ps in
    record {
      sound = All-append IsSound o.keep r.keep one.sound rest.sound;
      awaiting = All-append (IsAwaiting t.event_time) o.keep r.keep one.awaiting rest.awaiting;
      outcomes = All-append IsOutcome o.outcomes r.outcomes one.outcomes rest.outcomes;
      accounts = omega (
        arith,
        one.accounts,
        rest.accounts,
        waiting-append o.keep r.keep,
        length-append o.outcomes r.outcomes,
      );
      none_rejected = omega (arith, one.none_rejected, rest.none_rejected);
    }

-- Where the pending outcomes are sound, behind a valid trade nothing is waited for that its time has
-- reached; as many horizons have left as there are outcomes; every outcome is at its horizon or
-- later, with a return between the two extremes that it gives; and what is kept is sound.
pub observe_trade-Settles :
    (k : FlowResponseOutcomeTracker) (t : Trade)
    → All IsSound k.pending
    → is_valid_trade t ≡ true
    → All (IsAwaiting t.event_time) (observe_trade k t).0.pending
      × (length (observe_trade k t).1 + waiting (observe_trade k t).0.pending ≡ waiting k.pending)
      × All IsOutcome (observe_trade k t).1
      × All IsSound (observe_trade k t).0.pending
unfolding observe_trade
observe_trade-Settles k t s v =
    let o = observe_each-Settles t k.pending s in rw v (o.awaiting, o.accounts, o.outcomes, o.sound)
