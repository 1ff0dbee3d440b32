-- ===== src/Connector/Retries.antt =====
-- How often the connector retries: the bound of `reconnect_max_retries`, and no bound at 0.
use deltaengine.Prelude.{
  ℕ, ◌+◌, ◌-◌, ◌≤◌, ◌<◌, List, [], ◌∷◌, Bool, true, false, length, All, ◌≡◌, refl, arith,
  if◌then◌else◌, nat_eq, inl, inr, Bool-cases,
}
use deltaengine.EventQueue.Sink.{EventSink}
use deltaengine.Connector.{
  disconnected, Outcome, timeout, refused, streamed, Attempt, should_reconnect, Connector,
  connecting, set_state, log_error, note_reconnect, round, run_loop, run,
}

abbrev IsFailure : {A : Type 0} → Outcome A → Type 0
IsFailure timeout = Unit
IsFailure refused = Unit
IsFailure (streamed ms e) = ⊥

-- The attempt fails, and nobody has called `stop`.
abbrev pub Fails : {A : Type 0} → Attempt A → Type 0
Fails a = IsFailure a.outcome × (a.stop_called ≡ false)

module _ {A : Type 0} {q : EventSink A} where
  -- The connector after a failed attempt that is retried.
  abbrev retried : Connector q → Connector q
  retried c = note_reconnect (log_error c)

  round-fails :
      (c : Connector q) (attempts : ℕ) (o : Outcome A)
      → IsFailure o
      → round c attempts o ≡ (
          if should_reconnect c.settings attempts
          then (retried c, attempts + 1, true)
          else (log_error c, attempts, false))
  unfolding round
  round-fails c attempts timeout h = refl
  round-fails c attempts refused h = refl
  round-fails c attempts (streamed ms e) h = absurd h

  -- What a run of failures has counted.
  pub record GaveUp (c : Connector q) (retries : ℕ) (r : Connector q × Bool) : Type 0 where
    pub ended : r.1 ≡ true
    pub reconnects : r.0.reconnect_count ≡ c.reconnect_count + retries
    pub errors : r.0.errors ≡ c.errors + retries + 1

  run_loop-retries :
      (c : Connector q) (attempts : ℕ) (a : Attempt A) (rest : List (Attempt A))
      → Fails a
      → c.stopped ≡ false
      → should_reconnect c.settings attempts ≡ true
      → run_loop c attempts (a ∷ rest) ≡ run_loop (retried c) (attempts + 1) rest
  unfolding run_loop note_reconnect set_state log_error
  run_loop-retries c attempts a rest (f, running) s more =
      ground (arith, round-fails c attempts a.outcome f)

  run_loop-last :
      (c : Connector q) (attempts : ℕ) (a : Attempt A) (rest : List (Attempt A))
      → Fails a
      → c.stopped ≡ false
      → should_reconnect c.settings attempts ≡ false
      → run_loop c attempts (a ∷ rest) ≡ (log_error c, true)
  unfolding run_loop
  run_loop-last c attempts a rest (f, running) s last =
      ground (arith, round-fails c attempts a.outcome f)

  retry_below :
      (c : Connector q) (attempts : ℕ)
      → c.settings.reconnect ≡ true
      → 1 ≤ c.settings.reconnect_max_retries
      → should_reconnect c.settings attempts ≡ true
      → attempts < c.settings.reconnect_max_retries
  unfolding should_reconnect
  retry_below c attempts r pos more = ground arith

  no_retry :
      (c : Connector q) (attempts : ℕ)
      → c.settings.reconnect ≡ true
      → attempts ≤ c.settings.reconnect_max_retries
      → should_reconnect c.settings attempts ≡ false
      → attempts ≡ c.settings.reconnect_max_retries
  unfolding should_reconnect
  no_retry c attempts r le last = ground arith

  loop_gives_up :
      (environment : List (Attempt A)) (c : Connector q) (attempts : ℕ)
      → All Fails environment
      → c.stopped ≡ false
      → c.settings.reconnect ≡ true
      → 1 ≤ c.settings.reconnect_max_retries
      → attempts ≤ c.settings.reconnect_max_retries
      → c.settings.reconnect_max_retries - attempts < length environment
      → GaveUp c (c.settings.reconnect_max_retries - attempts) (run_loop c attempts environment)
  unfolding note_reconnect log_error
  loop_gives_up [] c attempts f s r pos le lt = absurd (omega arith)
  loop_gives_up (a ∷ rest) c attempts (f, fs) s r pos le lt =
      elim (Bool-cases (should_reconnect c.settings attempts)) [
        | inl more ↦
            let below = retry_below c attempts r pos more in
            let h =
              loop_gives_up rest (retried c) (attempts + 1) fs s r pos (omega arith)
                (omega arith) in
            rw (run_loop-retries c attempts a rest f s more) (record {
              ended = h.ended;
              reconnects = omega (arith, h.reconnects);
              errors = omega (arith, h.errors);
            })
        | inr last ↦
            let reached = no_retry c attempts r le last in
            rw (run_loop-last c attempts a rest f s last)
              (record { ended = refl; reconnects = omega arith; errors = omega arith })
      ]

  -- A connector that may retry `m ≥ 1` times, and whose attempts all fail without anybody calling
  -- `stop`, gives up at the attempt `m + 1`: given that many attempts, `run` ends in DISCONNECTED,
  -- with `m` reconnects and `m + 1` errors counted.
  pub run_gives_up :
      (environment : List (Attempt A)) (c : Connector q)
      → All Fails environment
      → c.stopped ≡ false
      → c.settings.reconnect ≡ true
      → 1 ≤ c.settings.reconnect_max_retries
      → c.settings.reconnect_max_retries < length environment
      → GaveUp c c.settings.reconnect_max_retries (run c environment)
        × ((run c environment).0.state ≡ disconnected)
  unfolding run set_state
  run_gives_up environment c f s r pos lt =
      let h =
        loop_gives_up environment (set_state c connecting) 0 f s r pos (omega arith)
          (omega arith) in
      rw h.ended (
        record {
          ended = refl;
          reconnects = omega (arith, h.reconnects);
          errors = omega (arith, h.errors);
        },
        refl,
      )

  unlimited :
      (c : Connector q) (attempts : ℕ)
      → c.settings.reconnect ≡ true
      → c.settings.reconnect_max_retries ≡ 0
      → should_reconnect c.settings attempts ≡ true
  unfolding should_reconnect
  unlimited c attempts r u = ground arith

  loop_retries_forever :
      (environment : List (Attempt A)) (c : Connector q) (attempts : ℕ)
      → All Fails environment
      → c.stopped ≡ false
      → c.settings.reconnect ≡ true
      → c.settings.reconnect_max_retries ≡ 0
      → ((run_loop c attempts environment).1 ≡ false)
        × ((run_loop c attempts environment).0.reconnect_count
            ≡ c.reconnect_count + length environment)
        × ((run_loop c attempts environment).0.errors ≡ c.errors + length environment)
  unfolding note_reconnect log_error
  loop_retries_forever [] c attempts f s r u = unfold run_loop in (s, omega arith, omega arith)
  loop_retries_forever (a ∷ rest) c attempts (f, fs) s r u =
      let (on, reconnects, errors) =
        loop_retries_forever rest (retried c) (attempts + 1) fs s r u in
      rw (run_loop-retries c attempts a rest f s (unlimited c attempts r u))
        (on, omega (arith, reconnects), omega (arith, errors))

  -- With `reconnect_max_retries` 0 the connector never gives up: through any number of failures, as
  -- long as nobody calls `stop`, `run` has not ended, and has counted a reconnect and an error for
  -- each failure.
  pub run_retries_forever :
      (environment : List (Attempt A)) (c : Connector q)
      → All Fails environment
      → c.stopped ≡ false
      → c.settings.reconnect ≡ true
      → c.settings.reconnect_max_retries ≡ 0
      → ((run c environment).1 ≡ false)
        × ((run c environment).0.reconnect_count ≡ c.reconnect_count + length environment)
        × ((run c environment).0.errors ≡ c.errors + length environment)
  unfolding run set_state
  run_retries_forever environment c f s r u =
      let (on, reconnects, errors) =
        loop_retries_forever environment (set_state c connecting) 0 f s r u in
      rw on (refl, reconnects, errors)
