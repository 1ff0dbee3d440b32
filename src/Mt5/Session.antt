-- ===== src/Mt5/Session.antt =====
-- The drop policy of a client's buffer.
use deltaengine.Prelude.{
  ◌+◌, ◌≤◌, List, [], ◌∷◌, ◌++◌, none, some, if◌then◌else◌, string_eq, length, length-append, ◌≡◌,
  ◌⊎◌, inl, inr, refl, Option-cases, arith,
}
use deltaengine.Mt5.{Message, is_signal, ClientSession, evict, put_nowait}

-- The SIGNAL messages of a buffer, in order.
unfoldable pub signals : List Message → List Message
signals [] = []
signals (m ∷ ms) = let rest = signals ms in if is_signal m then m ∷ rest else rest

signals-append : (xs ys : List Message) → signals (xs ++ ys) ≡ signals xs ++ signals ys
unfolding signals
signals-append [] ys = refl
signals-append (m ∷ ms) ys = ground (arith, signals-append ms ys)

-- An eviction takes one message, and no SIGNAL.
evict-eq_some :
    (ms rest : List Message)
    → evict ms ≡ some rest
    → (length ms ≡ length rest + 1) × (signals rest ≡ signals ms)
unfolding evict signals
evict-eq_some [] rest e = cc
evict-eq_some (m ∷ ms) rest e = elim (Option-cases (evict ms)) [
  | inl e' ↦ ground arith
  | inr (ms', e') ↦ ground (arith, evict-eq_some ms ms' e')
]

-- It fails only where all messages are SIGNALs.
evict-eq_none : (ms : List Message) → evict ms ≡ none → signals ms ≡ ms
unfolding evict signals
evict-eq_none [] e = refl
evict-eq_none (m ∷ ms) e = ground (arith, evict-eq_none ms)

pub put_nowait-bound :
    (s : ClientSession) (m : Message)
    → length s.buffer ≤ s.maxsize
    → length (put_nowait s m).0.buffer ≤ s.maxsize
unfolding put_nowait
put_nowait-bound s m h = elim (Option-cases (evict s.buffer)) [
  | inl e ↦ ground (arith, length-append s.buffer (m ∷ []))
  | inr (rest, e) ↦ ground (
    arith,
    length-append s.buffer (m ∷ []),
    length-append rest (m ∷ []),
    evict-eq_some s.buffer rest e,
  )
]

-- A message is always either in the buffer or counted as dropped: a put adds one to the sum of
-- the two, drops at most one message, and says so exactly when it has.
pub put_nowait_accounts :
    (s : ClientSession) (m : Message)
    → let (s', dropped) = put_nowait s m in
      (length s'.buffer + s'.dropped ≡ length s.buffer + s.dropped + 1)
      × (s'.dropped ≡ (if dropped then s.dropped + 1 else s.dropped))
unfolding put_nowait
put_nowait_accounts s m = elim (Option-cases (evict s.buffer)) [
  | inl e ↦ ground (arith, length-append s.buffer (m ∷ []))
  | inr (rest, e) ↦ ground (
    arith,
    length-append s.buffer (m ∷ []),
    length-append rest (m ∷ []),
    evict-eq_some s.buffer rest e,
  )
]

-- The drop policy never gives up a SIGNAL that is buffered: behind a put the buffered SIGNALs are
-- those from before, in their order, with the new message behind them if it is a SIGNAL; the one
-- exception is a full buffer of SIGNALs only, which the put leaves as it is.
pub put_nowait-signals :
    (s : ClientSession) (m : Message)
    → let s' = (put_nowait s m).0 in
      (signals s'.buffer ≡ signals s.buffer ++ signals (m ∷ []))
      ⊎ ((s.maxsize ≤ length s.buffer) × (signals s.buffer ≡ s.buffer) × (s'.buffer ≡ s.buffer))
unfolding put_nowait
put_nowait-signals s m = elim (Option-cases (evict s.buffer)) [
  | inl e ↦ ground (arith, signals-append s.buffer (m ∷ []), evict-eq_none s.buffer e)
  | inr (rest, e) ↦ ground (
    arith,
    signals-append s.buffer (m ∷ []),
    signals-append rest (m ∷ []),
    evict-eq_some s.buffer rest e,
  )
]
