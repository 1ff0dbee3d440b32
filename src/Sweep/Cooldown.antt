-- ===== src/Sweep/Cooldown.antt =====
-- The cooldown over a whole stream of trades.
use deltaengine.Prelude.{
  ℕ, ◌≤◌, List, [], ◌∷◌, ◌++◌, Option, none, some, Bool, true, false, not, ℤ, pos, ◌+ℤ◌, ◌-ℤ◌, ◌≤ℤ◌,
  ltb_ℤ, if◌then◌else◌, nat_eq, Result, ok, Returns, Returns-bind, ◌>>=◌, ◌≡◌, refl, inl, inr,
  Bool-cases, arith, int_laws,
}
use deltaengine.Trades.{Trade, is_buy, is_valid_side}
use deltaengine.Sweep.{
  SweepEvent, SweepDetector, epoch_ms, last_fire, fire, process, Entry, prune, buffer_of,
  store_buffer, count_levels,
}

-- The events that are given, in their order.
abbrev pub add_event : Option SweepEvent → List SweepEvent → List SweepEvent
add_event none es = es
add_event (some e) es = e ∷ es

-- One call for each trade, with the events in their order.
unfoldable pub process_all : SweepDetector → List Trade → Result (List SweepEvent)
process_all d [] = ok []
process_all d (t ∷ ts) = do r ← process d t; es ← process_all r.0 ts; ok (add_event r.1 es)

abbrev same_side : Bool → Bool → Bool
same_side true b = b
same_side false b = not b

-- The events of the side come at least the cooldown after the one before, the first one after `last`.
unfoldable pub AreSpaced : Bool → ℕ → ℤ → List SweepEvent → Type 0
AreSpaced side cooldown last [] = Unit
AreSpaced side cooldown last (e ∷ es) =
    let here =
      (last +ℤ pos cooldown ≤ℤ pos (epoch_ms e.event_time))
      × AreSpaced side cooldown (pos (epoch_ms e.event_time)) es in
    let other = AreSpaced side cooldown last es in
    if same_side side (is_buy e.side) then here else other

-- What a call leaves of the settings, and what it says of the side's last event.
abbrev Fires : SweepDetector → SweepDetector → Option SweepEvent → Type 0
Fires d d' none = (d'.last_buy_ms ≡ d.last_buy_ms) × (d'.last_sell_ms ≡ d.last_sell_ms)
Fires d d' (some e) =
    (d'.last_buy_ms ≡ (if is_buy e.side then pos (epoch_ms e.event_time) else d.last_buy_ms))
    × (d'.last_sell_ms ≡ (if is_buy e.side then d.last_sell_ms else pos (epoch_ms e.event_time)))
    × (last_fire d (is_buy e.side) +ℤ pos d.cooldown_ms ≤ℤ pos (epoch_ms e.event_time))

abbrev HasFired : SweepDetector → SweepDetector × Option SweepEvent → Type 0
HasFired d r = (r.0.cooldown_ms ≡ d.cooldown_ms) × (r.0.min_levels ≡ d.min_levels) × Fires d r.0 r.1

cooled_down :
    (now : ℕ) (last : ℤ) (cooldown : ℕ)
    → ltb_ℤ (pos now -ℤ last) (pos cooldown) ≡ false
    → last +ℤ pos cooldown ≤ℤ pos now
cooled_down now last cooldown h = grind (int_laws, h)

fire-HasFired :
    (d : SweepDetector) (t : Trade) (es : List Entry) (levels : ℕ)
    → 1 ≤ d.min_levels
    → Returns (HasFired d) (fire d t es levels)
unfolding fire
fire-HasFired d t es levels n =
    ground (arith, cooled_down (epoch_ms t.event_time) (last_fire d (is_buy t.side)) d.cooldown_ms)

process-HasFired :
    (d : SweepDetector) (t : Trade) → 1 ≤ d.min_levels → Returns (HasFired d) (process d t)
unfolding process
process-HasFired d t n = elim (Bool-cases (is_valid_side t.side)) [
  | inl v ↦
      let now = epoch_ms t.event_time in
      let side = is_buy t.side in
      let entry : Entry = record { ms = now; price = t.price; quantity = t.quantity } in
      let es = prune d.window_ms now (buffer_of d side ++ entry ∷ []) in
      rw v (fire-HasFired (store_buffer d side es) t es (count_levels d.tick_size es) n)
  | inr v ↦ rw v (refl, refl, (refl, refl))
]

add_event-AreSpaced :
    (side : Bool) (d d' : SweepDetector) (o : Option SweepEvent) (es : List SweepEvent)
    → Fires d d' o
    → AreSpaced side d.cooldown_ms (last_fire d' side) es
    → AreSpaced side d.cooldown_ms (last_fire d side) (add_event o es)
unfolding AreSpaced
add_event-AreSpaced true d d' none es f h = rw f.0 at h
add_event-AreSpaced false d d' none es f h = rw f.1 at h
add_event-AreSpaced true d d' (some e) es f h = elim (Bool-cases (is_buy e.side)) [
  | inl b ↦ rw b (rw b at f.2, rw (f.0, b) at h)
  | inr b ↦ rw b (rw (f.0, b) at h)
]
add_event-AreSpaced false d d' (some e) es f h = elim (Bool-cases (is_buy e.side)) [
  | inl b ↦ rw b (rw (f.1, b) at h)
  | inr b ↦ rw b (rw b at f.2, rw (f.1, b) at h)
]

-- However the trades come, with `min_levels` at least 1 no call raises, and of the events that are
-- given for either side each comes at least `cooldown_ms` after the one before it, and the first
-- one as long after the last event that the detector remembers for the side.
pub process_all-AreSpaced :
    (side : Bool) (ts : List Trade) (d : SweepDetector)
    → 1 ≤ d.min_levels
    → Returns (AreSpaced side d.cooldown_ms (last_fire d side)) (process_all d ts)
unfolding process_all
process_all-AreSpaced side [] d n = unfold AreSpaced in tt
process_all-AreSpaced side (t ∷ ts) d n =
    Returns-bind _ _ (process d t) (λ r. process_all r.0 ts >>= (λ es. ok (add_event r.1 es)))
      (process-HasFired d t n)
      (λ r f.
        Returns-bind _ _ (process_all r.0 ts) (λ es. ok (add_event r.1 es))
          (process_all-AreSpaced side ts r.0 (rw f.1 n))
          (λ es h. add_event-AreSpaced side d r.0 r.1 es f.2 (rw f.0 at h)))
