-- ===== src/EventQueue/Sink.antt =====
-- The side of a queue that a producer sees: what can be put into it, and how many items have been.
-- `dropping_sink` is the queue under `DROP_OLDEST_LOG`, whose puts never wait.
use deltaengine.Prelude.{ℕ, ◌+◌, length, ◌≡◌}
use deltaengine.EventQueue.{BoundedEventQueue, put_dropping}
use deltaengine.EventQueue.Overflow.{IsValid, put_dropping-IsValid, put_dropping-counts}

pub record EventSink (A : Type 0) : Type 1 where
  pub Sink : Type 0
  pub put : Sink → A → Sink
  -- The items put so far, the dropped ones included.
  pub received : Sink → ℕ
  pub received-put : (s : Sink) (x : A) → received (put s x) ≡ received s + 1

-- A queue of the policy that drops, with a proof that it is valid.
pub record ValidQueue (A : Type 0) : Type 0 where
  pub queue : BoundedEventQueue A
  pub valid : IsValid queue

module _ {A : Type 0} where
  unfoldable pub put_valid : ValidQueue A → A → ValidQueue A
  put_valid s x = record {
    queue = put_dropping s.queue x;
    valid = put_dropping-IsValid s.queue x s.valid;
  }

  abbrev pub received_by : ValidQueue A → ℕ
  received_by s = length s.queue.items + s.queue.overflow_count

  pub received_by-put_valid :
      (s : ValidQueue A) (x : A) → received_by (put_valid s x) ≡ received_by s + 1
  unfolding put_valid
  received_by-put_valid s x = put_dropping-counts s.queue x s.valid

abbrev pub dropping_sink : (A : Type 0) → EventSink A
dropping_sink A = record {
  Sink = ValidQueue A;
  put = put_valid;
  received = received_by;
  received-put = received_by-put_valid;
}
