-- ===== src/FlowResponse/Outcomes/Accounts.antt =====
-- What `register` and `observe_trade` do to the horizons that are waited for.
use deltaengine.Prelude.{
  ℕ, ◌+◌, ◌*◌, List, [], ◌∷◌, Bool, true, false, pos, leb_ℤ, All, All-append, length, if◌then◌else◌,
  ◌≡◌, refl, ap, ◌∙◌, inl, inr, Bool-cases, on_if, arith,
}
use deltaengine.Trades.{Trade}
use deltaengine.FlowResponse.{FlowResponseSnapshot}
use deltaengine.FlowResponse.Detector.{is_valid_trade}
use deltaengine.FlowResponse.Outcomes.{
  FlowResponseOutcomeTracker, register_one, register, observe_trade, pend,
}
use deltaengine.FlowResponse.Outcomes.Horizons.{
  waiting, waiting-append, IsSound, IsOutcome, observe_trade-Settles,
}

pub data Event : Type 0 where
  snapshots : List FlowResponseSnapshot → Event
  trade : Trade → Event

-- What `register` changes.
pub record Registers (k : FlowResponseOutcomeTracker)
    (r : FlowResponseOutcomeTracker × List FlowResponseSnapshot) : Type 0 where
  pub horizons : r.0.horizons_sec ≡ k.horizons_sec
  pub sound : All IsSound r.0.pending
  pub accounts : waiting r.0.pending ≡ waiting k.pending + length r.1 * length k.horizons_sec

-- One snapshot that is an event, or is not.
abbrev pub RegistersOne : FlowResponseOutcomeTracker → FlowResponseOutcomeTracker × Bool → Type 0
RegistersOne k r =
    (r.0.horizons_sec ≡ k.horizons_sec)
    × All IsSound r.0.pending
    × (waiting r.0.pending ≡ waiting k.pending + (if r.1 then length k.horizons_sec else 0))

pub register_one-Registers :
    (k : FlowResponseOutcomeTracker) (s : FlowResponseSnapshot)
    → All IsSound k.pending
    → RegistersOne k (register_one k s)
unfolding register_one
register_one-Registers k s sound =
    on_if (RegistersOne k) (leb_ℤ s.last_price (pos 0)) _ _ (λ _. (refl, sound, omega arith))
      (λ good.
        on_if (RegistersOne k) _ _ _ (λ _. (refl, sound, omega arith))
          (λ _. (
            refl,
            All-append IsSound k.pending (pend k.horizons_sec s ∷ []) sound
                (record { positive = ground arith; ordered = omega arith }, tt),
            omega (arith, waiting-append k.pending (pend k.horizons_sec s ∷ [])),
          )))

-- One event more has as many horizons more.
sum_of :
    (b : Bool) (n h : ℕ) (s : FlowResponseSnapshot) (ss : List FlowResponseSnapshot)
    → n + (if b then h else 0) + length ss * h ≡ n + length (if b then s ∷ ss else ss) * h
sum_of true n h s ss = grind arith
sum_of false n h s ss = omega arith

pub register-Registers :
    (ss : List FlowResponseSnapshot) (k : FlowResponseOutcomeTracker)
    → All IsSound k.pending
    → Registers k (register k ss)
unfolding register
register-Registers [] k sound = record { horizons = refl; sound = sound; accounts = omega arith }
register-Registers (s ∷ ss) k sound =
    let one = register_one-Registers k s sound in
    let rest = register-Registers ss (register_one k s).0 one.1 in
    let more = (register (register_one k s).0 ss).1 in
    record {
      horizons = rest.horizons ∙ one.0;
      sound = rest.sound;
      accounts =
          rest.accounts
          ∙ ap (λ hs. waiting (register_one k s).0.pending + length more * length hs) one.0
          ∙ ap (λ n. n + length more * length k.horizons_sec) one.2
          ∙ sum_of (register_one k s).1 (waiting k.pending) (length k.horizons_sec) s more;
    }

-- A trade that is not valid is only counted.
pub observe_trade_keeps :
    (k : FlowResponseOutcomeTracker) (t : Trade)
    → All IsSound k.pending
    → ((observe_trade k t).0.horizons_sec ≡ k.horizons_sec)
      × All IsSound (observe_trade k t).0.pending
      × All IsOutcome (observe_trade k t).1
      × (length (observe_trade k t).1 + waiting (observe_trade k t).0.pending ≡ waiting k.pending)
unfolding observe_trade
observe_trade_keeps k t s = elim (Bool-cases (is_valid_trade t)) [
  | inl v ↦
      let o = observe_trade-Settles k t s v in rw v (refl, rw v at o.3, rw v at o.2, rw v at o.1)
  | inr v ↦ rw v (refl, s, tt, omega arith)
]
