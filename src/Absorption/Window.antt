-- ===== src/Absorption/Window.antt =====
-- The sliding window: it holds exactly the trades of the last `window_sec` seconds.
use deltaengine.Prelude.{
  ℤ, length, ◌&&◌, ◌+◌, ◌≤◌, ◌<◌, List, [], ◌∷◌, ◌++◌, Option, none, some, true, false, ltb, leb,
  if◌then◌else◌, All, Result, OfOk, ok, raise, ◌>>=◌, ◌≡◌, refl, sym, ap, ap₂, subst, ◌∙◌, ◌⊎◌, inl,
  inr, Bool-cases, Option-cases, arith,
}
use mathlib.Core.List.{append-nil, append_assoc}
use deltaengine.Trades.{Time, Trade}
use deltaengine.OrderBook.{OrderBookSnapshot}
use deltaengine.VolumeRef.{Quotient}
use deltaengine.Absorption.{
  AbsorptionDetector, Classification, buy_absorption, sell_absorption, prune, slide, judge,
  evaluate_stalled, evaluate, observe_trade, times, is_enough, bought, sold, replenished,
  distinct_prices,
}

-- The trades that are not yet a whole window old.
abbrev pub recent : Time → Time → List Trade → List Trade
recent size now [] = []
recent size now (t ∷ ts) =
    let rest = recent size now ts in if ltb now (t.event_time + size) then t ∷ rest else rest

-- In the order of their times, from the given one on.
abbrev pub InOrder : Time → List Trade → Type 0
InOrder lo [] = Unit
InOrder lo (t ∷ ts) = (lo ≤ t.event_time) × InOrder t.event_time ts

recent-all :
    (size now lo : Time) (ts : List Trade)
    → now < lo + size
    → InOrder lo ts
    → recent size now ts ≡ ts
recent-all size now lo [] n h = refl
recent-all size now lo (t ∷ ts) n (l, h) =
    let new : ltb now (t.event_time + size) ≡ true = ground arith in
    rw (new, recent-all size now t.event_time ts (omega arith) h) refl

prune-recent :
    (size now lo : Time) (ts : List Trade) → InOrder lo ts → prune size now ts ≡ recent size now ts
unfolding prune
prune-recent size now lo [] h = refl
prune-recent size now lo (t ∷ ts) (l, h) = elim (Bool-cases (leb (t.event_time + size) now)) [
  | inl o ↦
      let old : ltb now (t.event_time + size) ≡ false = ground arith in
      rw (o, old) (prune-recent size now t.event_time ts h)
  | inr o ↦
      let new : ltb now (t.event_time + size) ≡ true = ground arith in
      rw (o, new, recent-all size now t.event_time ts (ground arith) h) refl
]

-- A trade that was too old before is still too old.
recent-twice :
    (size before now : Time) (ts : List Trade)
    → before ≤ now
    → recent size now (recent size before ts) ≡ recent size now ts
recent-twice size before now [] h = refl
recent-twice size before now (t ∷ ts) h = elim (Bool-cases (ltb before (t.event_time + size))) [
  | inl n ↦ rw (n, recent-twice size before now ts h) refl
  | inr n ↦
      let old : ltb now (t.event_time + size) ≡ false = ground arith in
      rw (n, old) (recent-twice size before now ts h)
]

InOrder-weaken : (lo lo' : Time) (ts : List Trade) → lo' ≤ lo → InOrder lo ts → InOrder lo' ts
InOrder-weaken lo lo' [] l h = tt
InOrder-weaken lo lo' (t ∷ ts) l (k, h) = (omega arith, h)

recent-InOrder :
    (size now lo : Time) (ts : List Trade) → InOrder lo ts → InOrder lo (recent size now ts)
recent-InOrder size now lo [] h = tt
recent-InOrder size now lo (t ∷ ts) (l, h) = elim (Bool-cases (ltb now (t.event_time + size))) [
  | inl n ↦ rw n (l, recent-InOrder size now t.event_time ts h)
  | inr n ↦ rw n (
      InOrder-weaken t.event_time lo (recent size now ts) l
        (recent-InOrder size now t.event_time ts h))
]

recent-snoc :
    (size : Time) (ts : List Trade) (t : Trade)
    → 1 ≤ size
    → recent size t.event_time (ts ++ t ∷ []) ≡ recent size t.event_time ts ++ t ∷ []
recent-snoc size [] t s =
    let new : ltb t.event_time (t.event_time + size) ≡ true = ground arith in rw new refl
recent-snoc size (u ∷ ts) t s = elim (Bool-cases (ltb t.event_time (u.event_time + size))) [
  | inl n ↦ rw n (ap (λ us. u ∷ us) (recent-snoc size ts t s))
  | inr n ↦ rw n (recent-snoc size ts t s)
]

-- One call of `observe_trade` for each trade, with what the two providers return at it.
abbrev pub Call : Type 0
Call = Trade × Option OrderBookSnapshot × Option Quotient

unfoldable pub observe_all : AbsorptionDetector → List Call → Result AbsorptionDetector
observe_all d [] = ok d
observe_all d ((t, snap, reference) ∷ calls) = do
  d' ← observe_trade d snap reference t
  observe_all d' calls

abbrev pub trades_of : List Call → List Trade
trades_of [] = []
trades_of ((t, snap, reference) ∷ calls) = t ∷ trades_of calls

abbrev pub last_time : Time → List Call → Time
last_time now [] = now
last_time now ((t, snap, reference) ∷ calls) = last_time t.event_time calls

abbrev pub Keeps : AbsorptionDetector → AbsorptionDetector → Type 0
Keeps d d' =
    (d'.window ≡ d.window)
    × (d'.window_size ≡ d.window_size)
    × (d'.volume_multiplier ≡ d.volume_multiplier)

judge-Keeps :
    (d : AbsorptionDetector) (c : Classification) (v : ℤ) (q : Quotient) (p : ℤ) (ps : List ℤ)
    → OfOk (λ r. Keeps d r.0) (judge d c v q p ps)
unfolding judge
judge-Keeps d c v q p ps = ground arith

evaluate_stalled-Keeps :
    (d : AbsorptionDetector) (now start : OrderBookSnapshot) (q : Quotient) (p : ℤ) (ps : List ℤ)
    → OfOk (λ r. Keeps d r.0) (evaluate_stalled d now start q p ps)
unfolding evaluate_stalled
evaluate_stalled-Keeps d now start q p ps =
    let threshold = times q d.volume_multiplier in
    let double =
      d.double_direction_events
      + (if is_enough (bought d.window) threshold && replenished now.asks start.asks (p ∷ ps)
          then 1
          else 0) in
    ground (
      arith,
      judge-Keeps (record d { double_direction_events = double }) buy_absorption (sold d.window)
          threshold p ps,
      judge-Keeps d sell_absorption (bought d.window) threshold p ps,
    )

List-cases : (ps : List ℤ) → (ps ≡ []) ⊎ ((p : ℤ) × (qs : List ℤ) × (ps ≡ p ∷ qs))
List-cases [] = inl refl
List-cases (p ∷ qs) = inr (p, qs, refl)

pub evaluate-Keeps :
    (d : AbsorptionDetector) (now start : OrderBookSnapshot) (reference : Option Quotient)
    → OfOk (λ r. Keeps d r.0) (evaluate d now start reference)
unfolding evaluate
evaluate-Keeps d now start none = ground arith
evaluate-Keeps d now start (some q) =
    elim (Bool-cases (ltb d.price_stall_ticks (length (distinct_prices d.window)))) [
      | inl l ↦ rw l (refl, refl, refl)
      | inr l ↦ elim (List-cases (distinct_prices d.window)) [
        | inl e ↦ rw (l, e) (refl, refl, refl)
        | inr (p, ps, e) ↦ rw (l, e) (evaluate_stalled-Keeps d now start q p ps)
      ]
    ]

slide_size :
    (d : AbsorptionDetector) (snap : Option OrderBookSnapshot) (t : Trade)
    → (slide d snap t).window_size ≡ d.window_size
unfolding slide
slide_size d snap t = refl

-- The window that a call leaves is that of `slide`.
abbrev Slides : AbsorptionDetector → Option OrderBookSnapshot → Trade → AbsorptionDetector → Type 0
Slides d snap t d' =
    (d'.window ≡ (slide d snap t).window) × (d'.window_size ≡ (slide d snap t).window_size)

observe_trade-Slides :
    (d : AbsorptionDetector) (snap : Option OrderBookSnapshot) (reference : Option Quotient)
    (t : Trade)
    → OfOk (Slides d snap t) (observe_trade d snap reference t)
unfolding observe_trade
observe_trade-Slides d none reference t = (refl, refl)
observe_trade-Slides d (some now) reference t =
    elim (Option-cases (slide d (some now) t).window_start_snapshot) [
      | inl e ↦ rw (OfOk, e) (refl, refl)
      | inr (start, e) ↦
          rw (OfOk, e) (ground (arith, evaluate-Keeps (slide d (some now) t) now start reference))
    ]

slide-recent :
    (d : AbsorptionDetector) (snap : Option OrderBookSnapshot) (t : Trade) (size now : Time)
    (past : List Trade)
    → d.window_size ≡ size
    → 1 ≤ size
    → now ≤ t.event_time
    → InOrder 0 past
    → d.window ≡ recent size now past
    → (slide d snap t).window ≡ recent size t.event_time (past ++ t ∷ [])
unfolding slide
slide-recent d snap t size now past w s later o h =
    ap₂ (λ n ts. prune n t.event_time ts ++ t ∷ []) w h
    ∙ ap (λ ts. ts ++ t ∷ [])
        (prune-recent size t.event_time 0 (recent size now past) (recent-InOrder size now 0 past o)
          ∙ recent-twice size now t.event_time past later)
    ∙ sym (recent-snoc size past t s)

InOrder-snoc :
    (lo now : Time) (past : List Trade) (t : Trade)
    → InOrder lo past
    → All (λ u. u.event_time ≤ now) past
    → lo ≤ now
    → now ≤ t.event_time
    → InOrder lo (past ++ t ∷ [])
InOrder-snoc lo now [] t h a l n = (omega arith, tt)
InOrder-snoc lo now (u ∷ past) t (k, h) (b, a) l n =
    (k, InOrder-snoc u.event_time now past t h a b n)

All-later :
    (now : Time) (past : List Trade) (t : Trade)
    → All (λ u. u.event_time ≤ now) past
    → now ≤ t.event_time
    → All (λ u. u.event_time ≤ t.event_time) (past ++ t ∷ [])
All-later now [] t a n = (omega arith, tt)
All-later now (u ∷ past) t (b, a) n = (omega arith, All-later now past t a n)

-- The window after these calls.
abbrev HoldsAfter : Time → Time → List Trade → List Call → AbsorptionDetector → Type 0
HoldsAfter size now past calls d =
    d.window ≡ recent size (last_time now calls) (past ++ trades_of calls)

observe_all-HoldsAfter :
    (calls : List Call) (size : Time) (d : AbsorptionDetector) (now : Time) (past : List Trade)
    → d.window_size ≡ size
    → 1 ≤ size
    → InOrder 0 past
    → All (λ u. u.event_time ≤ now) past
    → InOrder now (trades_of calls)
    → d.window ≡ recent size now past
    → OfOk (HoldsAfter size now past calls) (observe_all d calls)
unfolding observe_all
observe_all-HoldsAfter [] size d now past w s o a l h = rw append-nil h
observe_all-HoldsAfter ((t, snap, reference) ∷ calls) size d now past w s o a (l, ls) h =
    elim (observe_trade d snap reference t)
        as (λ m.
          OfOk (Slides d snap t) m
          → OfOk (HoldsAfter size now past ((t, snap, reference) ∷ calls))
              (m >>= (λ d'. observe_all d' calls))) [
                | ok d' ↦ λ k.
                    subst
                      (λ ts.
                        OfOk (λ e. e.window ≡ recent size (last_time t.event_time calls) ts)
                          (observe_all d' calls))
                      (append_assoc past (t ∷ []) (trades_of calls))
                      (observe_all-HoldsAfter calls size d' t.event_time (past ++ t ∷ [])
                        (k.1 ∙ slide_size d snap t ∙ w) s
                        (InOrder-snoc 0 now past t o a (omega arith) l) (All-later now past t a l)
                        ls (k.0 ∙ slide-recent d snap t size now past w s l o h))
                | raise e ↦ λ k. tt
              ]
      (observe_trade-Slides d snap reference t)

-- However the book and the reference change, as long as no call raises: after trades in the order of
-- their times, the window of a detector that began empty holds exactly the trades that are less
-- than the window size older than the last one, in their order.
pub observe_all_window :
    (calls : List Call) (d d' : AbsorptionDetector)
    → 1 ≤ d.window_size
    → d.window ≡ []
    → InOrder 0 (trades_of calls)
    → observe_all d calls ≡ ok d'
    → d'.window ≡ recent d.window_size (last_time 0 calls) (trades_of calls)
observe_all_window calls d d' s empty o ran =
    let h = observe_all-HoldsAfter calls d.window_size d 0 [] refl s tt tt o empty in rw ran at h
