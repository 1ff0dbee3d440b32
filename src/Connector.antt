-- ===== src/Connector.antt =====
-- The connection life cycle (src/acquisition/connector.py) over a queue that it puts messages into.
-- The socket is the environment: a list says how each connection attempt goes. `stop` may be
-- called at any time and is read at the head of the loop, so each attempt says whether it has been
-- called by then. Sleeping takes time only.
pub mod States
pub mod Rounds
pub mod Lifecycle
pub mod Retries
use deltaengine.Prelude.{
  ℕ, ◌+◌, List, [], ◌∷◌, ◌++◌, Bool, true, false, not, ◌&&◌, ◌||◌, ltb, if◌then◌else◌, ◌==◌, nat_eq,
  String, length, Result, ok, raise, value_error, string_eq,
}
use deltaengine.EventQueue.Sink.{EventSink}

pub data ConnectionState : Type 0 where
  disconnected connecting connected subscribed reconnecting : ConnectionState

-- How an attempt to connect goes: a time-out, a `ConnectionError`, or a stream of messages that
-- ends by itself or (`true`) by a `ConnectionError`.
pub data Outcome (A : Type 0) : Type 0 where
  timeout : Outcome A
  refused : Outcome A
  streamed : List A → Bool → Outcome A

pub record Attempt (A : Type 0) : Type 0 where
  pub outcome : Outcome A
  -- `stop` has been called before the head of the loop is reached again.
  pub stop_called : Bool

-- The settings that the life cycle reads.
pub record Settings : Type 0 where
  pub reconnect : Bool
  pub reconnect_max_retries : ℕ
  pub treat_stream_end_as_disconnect : Bool

module _ {A : Type 0} (q : EventSink A) where
  open q use {Sink, put}

  pub record Connector : Type 0 where
    pub settings : Settings
    pub out : Sink
    pub state : ConnectionState
    pub state_history : List ConnectionState
    pub reconnect_count : ℕ
    pub messages_out : ℕ
    pub errors : ℕ
    pub stopped : Bool

-- `_should_reconnect`
unfoldable pub should_reconnect : Settings → ℕ → Bool
should_reconnect s attempts =
    s.reconnect && (s.reconnect_max_retries == 0 || ltb attempts s.reconnect_max_retries)

module _ {A : Type 0} {q : EventSink A} where
  open q use {Sink, put}

  -- `_set_state`
  unfoldable pub set_state : Connector q → ConnectionState → Connector q
  set_state c s = record c { state = s; state_history = c.state_history ++ s ∷ [] }

  -- `_log_error`
  unfoldable pub log_error : Connector q → Connector q
  log_error c = record c { errors = c.errors + 1 }

  -- The body of `async for message in transport`.
  abbrev pub deliver_one : Connector q → A → Connector q
  deliver_one c m = record c { messages_out = c.messages_out + 1; out = put c.out m }

  unfoldable pub deliver : Connector q → List A → Connector q
  deliver c [] = c
  deliver c (m ∷ ms) = deliver (deliver_one c m) ms

  -- The lines that end each round which goes on: count, and enter RECONNECTING.
  unfoldable pub note_reconnect : Connector q → Connector q
  unfolding set_state
  note_reconnect c = set_state (record c { reconnect_count = c.reconnect_count + 1 }) reconnecting

  -- CONNECTED, SUBSCRIBED, the stream, and the error that may end it.
  unfoldable pub receive : Connector q → List A → Bool → Connector q
  unfolding set_state deliver log_error
  receive c ms stream_error =
      let c' = deliver (set_state (set_state c connected) subscribed) ms in
      if stream_error then log_error c' else c'

  -- One round of the loop of `run`: the connector, the attempts, and whether the loop goes on.
  unfoldable pub round : Connector q → ℕ → Outcome A → Connector q × ℕ × Bool
  unfolding log_error note_reconnect receive should_reconnect
  round c attempts timeout =
      let c' = log_error c in
      if should_reconnect c.settings attempts
      then (note_reconnect c', attempts + 1, true)
      else (c', attempts, false)
  round c attempts refused =
      let c' = log_error c in
      if should_reconnect c.settings attempts
      then (note_reconnect c', attempts + 1, true)
      else (c', attempts, false)
  round c attempts (streamed ms stream_error) =
      let c' = receive c ms stream_error in
      if not stream_error && not c.settings.treat_stream_end_as_disconnect
      then (c', 0, false)
      else if should_reconnect c.settings 0
      then (note_reconnect c', 1, true)
      else (c', 0, false)

  -- The loop of `run`. Where the list ends the connector still waits for its next attempt, and the
  -- result says that it has not ended.
  unfoldable pub run_loop : Connector q → ℕ → List (Attempt A) → Connector q × Bool
  run_loop c attempts [] = (c, c.stopped)
  run_loop c attempts (a ∷ rest) =
      let (c', attempts', goes_on) = round c attempts a.outcome in
      let next = run_loop (record c' { stopped = c'.stopped || a.stop_called }) attempts' rest in
      if c.stopped then (c, true) else if goes_on then next else (c', true)

  -- `run`: CONNECTING, the loop, and DISCONNECTED once it has ended.
  unfoldable pub run : Connector q → List (Attempt A) → Connector q × Bool
  unfolding run_loop set_state
  run c environment =
      let (c', ended) = run_loop (set_state c connecting) 0 environment in
      if ended then (set_state c' disconnected, true) else (c', false)
