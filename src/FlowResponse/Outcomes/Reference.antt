-- ===== src/FlowResponse/Outcomes/Reference.antt =====
-- The tracker against its specification: for each event and each horizon, the outcome of the first trade
-- that reaches it.
use deltaengine.Prelude.{
  ℕ, List, [], ◌∷◌, ◌++◌, Option, none, some, Bool, true, false, ◌&&◌, pos, ℤ, ◌+ℤ◌, ltb_ℤ, leb_ℤ,
  if◌then◌else◌, sum_by, sum_by-append, sum_opt, +ℤ-zero, zero-+ℤ, All, ◌<ℤ◌, ◌≡◌, refl, sym, ap,
  ap₂, subst, ◌∙◌, inl, inr, Bool-cases, on_if, arith, int_laws,
}
use deltaengine.Trades.{Trade}
use deltaengine.FlowResponse.{FlowResponseSnapshot}
use deltaengine.FlowResponse.Detector.{is_valid_trade}
use deltaengine.FlowResponse.Outcomes.{
  FlowResponseOutcome, PendingOutcome, FlowResponseOutcomeTracker, register_one, register,
  observe_trade, pend,
}
use deltaengine.FlowResponse.Outcomes.Horizons.{IsSound}
use deltaengine.FlowResponse.Outcomes.Accounts.{
  Event, snapshots, trade, register_one-Registers, register-Registers, observe_trade_keeps,
}
use deltaengine.FlowResponse.Outcomes.Firsts.{
  first_outcome, future, all_future, weight-observe_each,
}

-- The outcomes that a tracker gives for some calls of `register` and `observe_trade`.
unfoldable pub observe_all : FlowResponseOutcomeTracker → List Event → List FlowResponseOutcome
observe_all k [] = []
observe_all k (snapshots ss ∷ es) = observe_all (register k ss).0 es
observe_all k (trade t ∷ es) = (observe_trade k t).1 ++ observe_all (observe_trade k t).0 es

-- The trades with a positive price and quantity.
unfoldable pub valid_trades : List Event → List Trade
valid_trades [] = []
valid_trades (snapshots ss ∷ es) = valid_trades es
valid_trades (trade t ∷ es) =
    let rest = valid_trades es in
    if ltb_ℤ (pos 0) t.price && ltb_ℤ (pos 0) t.quantity then t ∷ rest else rest

-- The outcomes of a snapshot for these horizons, from the trades that follow it.
abbrev pub add_first :
    Option FlowResponseOutcome → List FlowResponseOutcome → List FlowResponseOutcome
add_first none os = os
add_first (some o) os = o ∷ os

unfoldable pub firsts : List ℕ → FlowResponseSnapshot → List Trade → List FlowResponseOutcome
firsts [] s ts = []
firsts (h ∷ hs) s ts = add_first (first_outcome s h s.last_price s.last_price ts) (firsts hs s ts)

unfoldable pub firsts_of :
    List ℕ → List FlowResponseSnapshot → List Trade → List FlowResponseOutcome
firsts_of hs [] ts = []
firsts_of hs (s ∷ ss) ts = firsts hs s ts ++ firsts_of hs ss ts

-- The outcomes of all snapshots that `register` gives back as events, each from the trades that
-- follow its registration.
unfoldable pub expected : FlowResponseOutcomeTracker → List Event → List FlowResponseOutcome
expected k [] = []
expected k (snapshots ss ∷ es) =
    let r = register k ss in firsts_of k.horizons_sec r.1 (valid_trades es) ++ expected r.0 es
expected k (trade t ∷ es) = expected (observe_trade k t).0 es

module _ (g : FlowResponseOutcome → ℤ) where
  sum_by-add_first :
      (o : Option FlowResponseOutcome) (os : List FlowResponseOutcome)
      → sum_by g (add_first o os) ≡ sum_opt g o +ℤ sum_by g os
  sum_by-add_first none os = sym (zero-+ℤ (sum_by g os))
  sum_by-add_first (some o) os = refl

  firsts-future :
      (hs all : List ℕ) (s : FlowResponseSnapshot) (ts : List Trade)
      → sum_by g (firsts hs s ts) ≡ future g (pend all s) ts hs
  unfolding firsts
  firsts-future [] all s ts = refl
  firsts-future (h ∷ hs) all s ts =
      let o = first_outcome s h s.last_price s.last_price ts in
      sum_by-add_first o (firsts hs s ts) ∙ ap (λ z. sum_opt g o +ℤ z) (firsts-future hs all s ts)

  register_one_future :
      (k : FlowResponseOutcomeTracker) (s : FlowResponseSnapshot) (ts : List Trade)
      → all_future g (register_one k s).0.pending ts
        ≡ all_future g k.pending ts
          +ℤ (if (register_one k s).1 then sum_by g (firsts k.horizons_sec s ts) else pos 0)
  unfolding register_one
  register_one_future k s ts =
      let holds : FlowResponseOutcomeTracker × Bool → Type 0 = λ r.
        all_future g r.0.pending ts
        ≡ all_future g k.pending ts
          +ℤ (if r.1 then sum_by g (firsts k.horizons_sec s ts) else pos 0) in
      on_if holds (leb_ℤ s.last_price (pos 0)) _ _ (λ _. sym (+ℤ-zero _))
        (λ _.
          on_if holds _ _ _ (λ _. sym (+ℤ-zero _))
            (λ _.
              sum_by-append (λ p. future g p ts p.remaining_horizons) k.pending
                (pend k.horizons_sec s ∷ [])
              ∙ ap (λ z. all_future g k.pending ts +ℤ z)
                  (+ℤ-zero _ ∙ sym (firsts-future k.horizons_sec k.horizons_sec s ts))))

  register_future :
      (ss : List FlowResponseSnapshot) (k : FlowResponseOutcomeTracker) (ts : List Trade)
      → All IsSound k.pending
      → all_future g (register k ss).0.pending ts
        ≡ all_future g k.pending ts +ℤ sum_by g (firsts_of k.horizons_sec (register k ss).1 ts)
  unfolding register firsts_of
  register_future [] k ts a = sym (+ℤ-zero _)
  register_future (s ∷ ss) k ts a =
      let one = register_one-Registers k s a in
      let k' = (register_one k s).0 in
      let more = (register k' ss).1 in
      register_future ss k' ts one.1
      ∙ ap₂ (λ x hs. x +ℤ sum_by g (firsts_of hs more ts)) (register_one_future k s ts) one.0
      ∙ joined (register_one k s).1 more
    where
      joined :
          (b : Bool) (more : List FlowResponseSnapshot)
          → (all_future g k.pending ts
                +ℤ (if b then sum_by g (firsts k.horizons_sec s ts) else pos 0))
              +ℤ sum_by g (firsts_of k.horizons_sec more ts)
            ≡ all_future g k.pending ts
              +ℤ sum_by g (firsts_of k.horizons_sec (if b then s ∷ more else more) ts)
      joined true more =
          regroup _ _ _
          ∙ ap (λ z. all_future g k.pending ts +ℤ z)
              (sym
                (sum_by-append g (firsts k.horizons_sec s ts) (firsts_of k.horizons_sec more ts)))
        where
          regroup : (x y z : ℤ) → (x +ℤ y) +ℤ z ≡ x +ℤ (y +ℤ z)
          regroup x y z = omega int_laws
      joined false more = ap (λ z. z +ℤ sum_by g (firsts_of k.horizons_sec more ts)) (+ℤ-zero _)

  sound_positive :
      (ps : List PendingOutcome) → All IsSound ps → All (λ p. pos 0 <ℤ p.snapshot.last_price) ps
  sound_positive [] a = tt
  sound_positive (p ∷ ps) a = (a.0.positive, sound_positive ps a.1)

  is_valid_trade-positive :
      (t : Trade) → is_valid_trade t ≡ (ltb_ℤ (pos 0) t.price && ltb_ℤ (pos 0) t.quantity)
  is_valid_trade-positive t = ground arith

  observe_trade_future :
      (k : FlowResponseOutcomeTracker) (t : Trade) (es : List Event)
      → All IsSound k.pending
      → sum_by g (observe_trade k t).1
          +ℤ all_future g (observe_trade k t).0.pending (valid_trades es)
        ≡ all_future g k.pending (valid_trades (trade t ∷ es))
  unfolding observe_trade valid_trades
  observe_trade_future k t es a =
      elim (Bool-cases (ltb_ℤ (pos 0) t.price && ltb_ℤ (pos 0) t.quantity)) [
        | inl v ↦
            rw (is_valid_trade-positive t, v)
              (weight-observe_each g k.pending t (valid_trades es) (sound_positive k.pending a))
        | inr v ↦ rw (is_valid_trade-positive t, v) (zero-+ℤ _)
      ]

  future_none : (p : PendingOutcome) (hs : List ℕ) → future g p [] hs ≡ pos 0
  unfolding first_outcome
  future_none p [] = refl
  future_none p (h ∷ hs) = zero-+ℤ _ ∙ future_none p hs

  all_future_none : (ps : List PendingOutcome) → all_future g ps [] ≡ pos 0
  all_future_none [] = refl
  all_future_none (p ∷ ps) =
      ap₂ (λ x y. x +ℤ y) (future_none p p.remaining_horizons) (all_future_none ps)
      ∙ zero-+ℤ (pos 0)

  regroup : (x y z : ℤ) → (x +ℤ y) +ℤ z ≡ x +ℤ (y +ℤ z)
  regroup x y z = omega int_laws

  observe_all_future :
      (es : List Event) (k : FlowResponseOutcomeTracker)
      → All IsSound k.pending
      → sum_by g (observe_all k es)
        ≡ all_future g k.pending (valid_trades es) +ℤ sum_by g (expected k es)
  unfolding observe_all expected valid_trades
  observe_all_future [] k a = sym (+ℤ-zero _ ∙ all_future_none k.pending)
  observe_all_future (snapshots ss ∷ es) k a =
      let r = register k ss in
      observe_all_future es r.0 (register-Registers ss k a).sound
      ∙ ap (λ z. z +ℤ sum_by g (expected r.0 es)) (register_future ss k (valid_trades es) a)
      ∙ regroup _ _ _
      ∙ ap (λ z. all_future g k.pending (valid_trades es) +ℤ z)
          (sym (sum_by-append g (firsts_of k.horizons_sec r.1 (valid_trades es)) (expected r.0 es)))
  observe_all_future (trade t ∷ es) k a =
      let o = observe_trade k t in
      sum_by-append g o.1 (observe_all o.0 es)
      ∙ ap (λ z. sum_by g o.1 +ℤ z) (observe_all_future es o.0 (observe_trade_keeps k t a).1)
      ∙ sym (regroup _ _ _)
      ∙ ap (λ z. z +ℤ sum_by g (expected o.0 es)) (observe_trade_future k t es a)

-- From a tracker that waits for nothing, whatever snapshots are registered and whatever trades are
-- observed, in whatever order: the outcomes given are, in number and in all their fields, those of
-- the specification, so that every weight of outcomes has the same sum over both. The specification
-- has, for each snapshot that `register` gives back as an event and each horizon of the tracker, one
-- outcome if a valid trade that comes after the registration is at the snapshot's time plus the
-- horizon or later: that of the first such trade, with its return in basis points of the observed
-- price, and with the returns of the largest and the smallest among the observed price and the
-- prices of the valid trades from the registration up to that one, without those before the
-- snapshot's time.
pub observe_all-expected :
    (k : FlowResponseOutcomeTracker) (es : List Event)
    → k.pending ≡ []
    → (g : FlowResponseOutcome → ℤ) → sum_by g (observe_all k es) ≡ sum_by g (expected k es)
observe_all-expected k es idle g =
    observe_all_future g es k (subst (All IsSound) (sym idle) tt)
    ∙ ap (λ ps. all_future g ps (valid_trades es) +ℤ sum_by g (expected k es)) idle
    ∙ zero-+ℤ (sum_by g (expected k es))
