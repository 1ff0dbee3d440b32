-- ===== src/Absorption/Totality.antt =====
-- When the division of an evaluation never fails.
use deltaengine.Prelude.{
  ◌≤◌, [], ◌∷◌, Option, none, some, pos, ◌<ℤ◌, *ℤ-Positive, length, length-append, ltb, Result,
  OfOk, ok, raise, Returns, Returns-mono, Returns-bind, ◌≡◌, refl, ◌∙◌, inl, inr, Option-cases,
  on_if, arith,
}
use deltaengine.Trades.{Trade}
use deltaengine.OrderBook.{OrderBookSnapshot}
use deltaengine.VolumeRef.{Quotient}
use deltaengine.Absorption.{
  AbsorptionDetector, distinct_prices, evaluate, slide, store_result, observe_trade,
}
use deltaengine.Absorption.Evaluate.{evaluate-IsOutcome}
use deltaengine.Absorption.Window.{Keeps, evaluate-Keeps}

-- A reference that is known is positive.
abbrev pub IsPositive : Option Quotient → Type 0
IsPositive none = Unit
IsPositive (some q) = pos 0 <ℤ q.numerator

both : {A : Type 0} (P Q : A → Type 0) (m : Result A) → Returns P m → OfOk Q m → Returns Q m
both P Q (ok a) h k = k
both P Q (raise e) h k = absurd h

abbrev HasSame : AbsorptionDetector → AbsorptionDetector → Type 0
HasSame d d' = d'.volume_multiplier ≡ d.volume_multiplier

slide_nonempty :
    (d : AbsorptionDetector) (snap : Option OrderBookSnapshot) (t : Trade)
    → 1 ≤ length (slide d snap t).window
unfolding slide
slide_nonempty d snap t = omega (arith, length-append _ (t ∷ []))

slide-HasSame :
    (d : AbsorptionDetector) (snap : Option OrderBookSnapshot) (t : Trade)
    → HasSame d (slide d snap t)
unfolding slide
slide-HasSame d snap t = refl

evaluate-Returns :
    (d : AbsorptionDetector) (now start : OrderBookSnapshot) (reference : Option Quotient)
    → 1 ≤ length d.window
    → pos 0 <ℤ d.volume_multiplier.numerator
    → IsPositive reference
    → Returns (λ _. Unit) (evaluate d now start reference)
evaluate-Returns d now start none full m h =
    unfold evaluate in
    on_if (Returns (λ _. Unit)) (ltb d.price_stall_ticks (length (distinct_prices d.window))) _ _
      (λ _. tt) (λ _. tt)
evaluate-Returns d now start (some q) full m h =
    Returns-mono (evaluate d now start (some q)) (λ _ _. tt)
      (evaluate-IsOutcome d now start q full
        (*ℤ-Positive q.numerator d.volume_multiplier.numerator h m))

-- With a positive multiplier and a reference that is positive where there is one, `observe_trade`
-- divides by no zero, and so raises nothing; the multiplier stays.
pub observe_trade-Returns :
    (d : AbsorptionDetector) (snap : Option OrderBookSnapshot) (reference : Option Quotient)
    (t : Trade)
    → pos 0 <ℤ d.volume_multiplier.numerator
    → IsPositive reference
    → Returns (HasSame d) (observe_trade d snap reference t)
unfolding observe_trade
observe_trade-Returns d none reference t m h = slide-HasSame d none t
observe_trade-Returns d (some now) reference t m h =
    let d' = slide d (some now) t in
    elim (Option-cases d'.window_start_snapshot) [
      | inl e ↦ rw (Returns, e) (slide-HasSame d (some now) t)
      | inr (start, e) ↦
          rw (Returns, e)
            (Returns-bind (λ r. Keeps d' r.0) (HasSame d) (evaluate d' now start reference)
              store_result
              (both (λ _. Unit) (λ r. Keeps d' r.0) (evaluate d' now start reference)
                (evaluate-Returns d' now start reference (slide_nonempty d (some now) t)
                  (rw (slide-HasSame d (some now) t) m) h)
                (evaluate-Keeps d' now start reference))
              (λ r k. k.2 ∙ slide-HasSame d (some now) t))
    ]
