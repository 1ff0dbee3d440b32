-- ===== src/Tests/Delivery.antt =====
-- The queue, the connector and the MT5 server at concrete inputs.
use deltaengine.Prelude.{
  ℕ, ◌+◌, ◌-◌, ◌≤◌, List, [], ◌∷◌, ◌++◌, some, true, false, length, ◌≡◌, ◌⊎◌, inl, subst, refl,
  arith,
}
use deltaengine.EventQueue
use deltaengine.EventQueue.{BoundedEventQueue, drop_oldest_log, block, put, get, full, put_dropping}
use deltaengine.EventQueue.Overflow
use deltaengine.EventQueue.Overflow.{put_all, newest, put_all-newest}
use deltaengine.EventQueue.Interleaving.{
  Run, begins, puts, gets, interleaving_accounts, block_is_fifo,
}
use deltaengine.EventQueue.Sink.{dropping_sink}
use deltaengine.Connector
use deltaengine.Connector.{
  Connector, connecting, disconnected, timeout, refused, streamed, Attempt, Settings,
}
use deltaengine.Connector.Lifecycle.{HasRun, run_lifecycle}
use deltaengine.Connector.Retries.{GaveUp, run_gives_up}
use deltaengine.Mt5.{
  Message, ClientSession, Mt5Server, put_nowait, broadcast, mark, drop_client, heartbeat,
  new_session,
}
use deltaengine.Mt5.Session.{signals, put_nowait-signals}
use deltaengine.Mt5.Clients.{IsValid}
use deltaengine.Mt5.Heartbeats.{three_heartbeats}
use deltaengine.Mt5.Server.{Reach, here, next, with, beats, drops, broadcasts, Reach-IsValid}

abbrev two_of : List ℕ → BoundedEventQueue ℕ
two_of xs = record {
  items = xs;
  maxsize = 2;
  overflow_policy = drop_oldest_log;
  overflow_count = 0;
}

two_of-IsValid : EventQueue.Overflow.IsValid (two_of [])
two_of-IsValid = record { positive = omega arith; bounded = omega arith }

abbrev items : List ℕ
items = 1 ∷ 2 ∷ 3 ∷ []

put_all-newest_example :
    ((put_all (two_of []) items).items ≡ newest 2 items)
    × ((put_all (two_of []) items).overflow_count ≡ 0 + (length items - 2))
put_all-newest_example = put_all-newest items (two_of []) two_of-IsValid

-- A full queue that loses its oldest item, and a get.
abbrev three : List ℕ
three = 3 ∷ []

abbrev lost_one : List ℕ → BoundedEventQueue ℕ
lost_one xs = record (two_of xs) { overflow_count = 1 }

overflowing : Run (two_of (1 ∷ 2 ∷ [])) (lost_one three) three (2 ∷ [])
unfolding put get full put_dropping EventQueue.without_oldest
overflowing = gets {q = lost_one (2 ∷ 3 ∷ [])} 2 (puts {q = two_of (1 ∷ 2 ∷ [])} 3 begins refl) refl

interleaving_accounts_example :
    1 + length (lost_one three).items + (lost_one three).overflow_count
    ≡ length (two_of (1 ∷ 2 ∷ [])).items + 0 + length three
interleaving_accounts_example = interleaving_accounts (omega arith) overflowing

abbrev blocking : List ℕ → BoundedEventQueue ℕ
blocking xs = record (two_of xs) { overflow_policy = block }

waiting : Run (blocking (1 ∷ [])) (blocking (3 ∷ [])) (3 ∷ []) (1 ∷ [])
unfolding put get full
waiting = gets {q = blocking (1 ∷ 3 ∷ [])} 1 (puts {q = blocking (1 ∷ [])} 3 begins refl) refl

abbrev one : List ℕ
one = 1 ∷ []

block_is_fifo_example : one ++ (blocking three).items ≡ (blocking one).items ++ three
block_is_fifo_example = block_is_fifo refl waiting

abbrev fresh : ℕ → Connector (dropping_sink ℕ)
fresh retries = record {
  settings = record {
    reconnect = true;
    reconnect_max_retries = retries;
    treat_stream_end_as_disconnect = false;
  };
  out = record { queue = two_of []; valid = two_of-IsValid };
  state = disconnected;
  state_history = [];
  reconnect_count = 0;
  messages_out = 0;
  errors = 0;
  stopped = false;
}

abbrev waits : Attempt ℕ
waits = record { outcome = timeout; stop_called = false }

abbrev breaks : Attempt ℕ
breaks = record { outcome = streamed (5 ∷ 6 ∷ []) true; stop_called = true }

run_lifecycle_example : HasRun (fresh 3) (Connector.run (fresh 3) (waits ∷ breaks ∷ []))
run_lifecycle_example = run_lifecycle (waits ∷ breaks ∷ []) (fresh 3) refl

run_gives_up_example :
    GaveUp (fresh 2) 2 (Connector.run (fresh 2) (waits ∷ waits ∷ waits ∷ []))
    × ((Connector.run (fresh 2) (waits ∷ waits ∷ waits ∷ [])).0.state ≡ disconnected)
run_gives_up_example =
    run_gives_up (waits ∷ waits ∷ waits ∷ []) (fresh 2) ((tt, refl), ((tt, refl), ((tt, refl), tt)))
      refl refl (omega arith) (omega arith)

abbrev heartbeat_message : Message
heartbeat_message = record { kind = some "HEARTBEAT"; body = "" }

abbrev signal_message : Message
signal_message = record { kind = some "SIGNAL"; body = "BUY" }

-- A full buffer with one SIGNAL.
abbrev full_session : ClientSession
full_session = record {
  maxsize = 2;
  buffer = heartbeat_message ∷ signal_message ∷ [];
  consecutive_missed_acks = 0;
  dropped = 0;
}

put_nowait-signals_example :
    let s' = (put_nowait full_session signal_message).0 in
    (signals s'.buffer ≡ signals full_session.buffer ++ signals (signal_message ∷ []))
    ⊎ ((full_session.maxsize ≤ length full_session.buffer)
        × (signals full_session.buffer ≡ full_session.buffer)
        × (s'.buffer ≡ full_session.buffer))
put_nowait-signals_example = put_nowait-signals full_session signal_message

abbrev idle : Mt5Server
idle = record {
  max_clients = 2;
  max_buffer_messages = 3;
  clients = [];
  clients_rejected = 0;
  messages_dropped = 0;
}

-- Both clients have missed two ACKs.
abbrev silent_session : ClientSession
silent_session = record (new_session 3) { consecutive_missed_acks = 2 }

abbrev silent : Mt5Server
silent = record idle { clients = (7, silent_session) ∷ (8, silent_session) ∷ [] }

silent-IsValid : IsValid silent []
unfolding new_session
silent-IsValid = record {
  few = omega arith;
  distinct = (refl, (refl, tt));
  healthy = ((refl, omega arith, inl (omega arith)), ((refl, omega arith, inl (omega arith)), tt));
}

abbrev marked : Mt5Server
marked = (mark silent heartbeat_message).0

both_to_drop : (mark silent heartbeat_message).1 ≡ 7 ∷ 8 ∷ []
unfolding mark new_session
both_to_drop = refl

-- A broadcast comes while the first of the two is being dropped.
drop_run : Reach (with silent []) (with (broadcast (drop_client marked 7) signal_message) (8 ∷ []))
drop_run =
    let beaten : Reach (with silent []) (with marked (7 ∷ 8 ∷ [])) =
      subst (λ ds. Reach (with silent []) (with marked ds)) both_to_drop
        (next here (beats silent heartbeat_message)) in
    next (next beaten (drops marked 7 (8 ∷ [])))
      (broadcasts (drop_client marked 7) (8 ∷ []) signal_message)

Reach-IsValid_example : IsValid (broadcast (drop_client marked 7) signal_message) (8 ∷ [])
Reach-IsValid_example = Reach-IsValid drop_run silent-IsValid

abbrev busy : Mt5Server
busy = record idle { clients = (7, full_session) ∷ (8, full_session) ∷ [] }

three_heartbeats_example :
    (heartbeat
      (heartbeat (heartbeat busy heartbeat_message) heartbeat_message)
      heartbeat_message).clients
    ≡ []
three_heartbeats_example =
    three_heartbeats busy heartbeat_message heartbeat_message heartbeat_message
