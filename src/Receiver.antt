-- ===== src/Receiver.antt =====
-- The receiver between two queues (src/acquisition/receiver.py): it validates, records and forwards
-- messages until the STOP sentinel. `validate` and `sequence_key` are arguments as in the source,
-- the destination is any `EventSink`, and the recorder is the list of what has been written.
pub mod Forwarding
use deltaengine.Prelude.{
  ℕ, ◌+◌, List, [], ◌∷◌, ◌++◌, Option, none, some, Bool, true, false, not, ltb, if◌then◌else◌,
}
use deltaengine.EventQueue.Sink.{EventSink}

module _ {A : Type 0} (q : EventSink A) where
  open q use {Sink, put}

  pub record DataReceiver : Type 0 where
    pub destination : Sink
    pub recorder : Option (List A)
    pub validate : A → Bool
    pub sequence_key : Option (A → ℕ)
    pub last_seq : Option ℕ
    pub forwarded : ℕ
    pub invalid : ℕ
    pub out_of_order : ℕ

-- `last_seq is not None and key < last_seq`
abbrev pub is_behind : Option ℕ → ℕ → Bool
is_behind none key = false
is_behind (some last) key = ltb key last

-- `recorder.write`, where there is a recorder.
abbrev pub record_message : {A : Type 0} → Option (List A) → A → Option (List A)
record_message none message = none
record_message (some written) message = some (written ++ message ∷ [])

module _ {A : Type 0} {q : EventSink A} where
  open q use {Sink, put}

  -- The lines on the sequence key: a message out of order is counted, and goes on all the same.
  unfoldable pub note_sequence : DataReceiver q → A → DataReceiver q
  note_sequence r message = elim r.sequence_key [
    | none ↦ r
    | some sequence_key ↦ record r {
      last_seq = some (sequence_key message);
      out_of_order =
          if is_behind r.last_seq (sequence_key message)
          then r.out_of_order + 1
          else r.out_of_order;
    }
  ]

  -- One message that is not STOP.
  unfoldable pub receive : DataReceiver q → A → DataReceiver q
  unfolding note_sequence
  receive r message =
      let noted = note_sequence r message in
      if not (r.validate message) then record r { invalid = r.invalid + 1 } else record noted {
        recorder = record_message noted.recorder message;
        destination = put noted.destination message;
        forwarded = noted.forwarded + 1;
      }

  -- `run`, on the messages of the source, with `none` for STOP. Where the list ends, the receiver
  -- waits for the next message, and the result says that it has not ended.
  unfoldable pub run : DataReceiver q → List (Option A) → DataReceiver q × Bool
  unfolding receive
  run r [] = (r, false)
  run r (none ∷ messages) = (r, true)
  run r (some message ∷ messages) = run (receive r message) messages
