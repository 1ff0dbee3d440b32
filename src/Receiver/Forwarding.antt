-- ===== src/Receiver/Forwarding.antt =====
-- What the receiver forwards and records.
use deltaengine.Prelude.{
  ℕ, ◌+◌, ◌≤◌, List, [], ◌∷◌, ◌++◌, Option, none, some, Bool, true, false, if◌then◌else◌, length,
  ◌≡◌, refl, sym, ap, ◌∙◌, inl, inr, Bool-cases, Option-cases, arith,
}
use mathlib.Core.List.{append-nil, append_assoc}
use deltaengine.EventQueue.Sink.{EventSink}
use deltaengine.Receiver.{DataReceiver, note_sequence, record_message, receive, run}

-- The messages before STOP that pass the validation, in their order, and those that do not.
unfoldable pub valid_messages : {A : Type 0} → (A → Bool) → List (Option A) → List A
valid_messages validate [] = []
valid_messages validate (none ∷ messages) = []
valid_messages validate (some m ∷ messages) =
    let rest = valid_messages validate messages in if validate m then m ∷ rest else rest

unfoldable pub invalid_messages : {A : Type 0} → (A → Bool) → List (Option A) → ℕ
invalid_messages validate [] = 0
invalid_messages validate (none ∷ messages) = 0
invalid_messages validate (some m ∷ messages) =
    (if validate m then 0 else 1) + invalid_messages validate messages

-- A producer's puts, one after the other.
abbrev pub put_each : {A : Type 0} (q : EventSink A) → q.Sink → List A → q.Sink
put_each q s [] = s
put_each q s (m ∷ ms) = put_each q (q.put s m) ms

-- The record with these messages behind it.
abbrev pub written_with : {A : Type 0} → Option (List A) → List A → Option (List A)
written_with none ms = none
written_with (some written) ms = some (written ++ ms)

written_twice :
    {A : Type 0} (o : Option (List A)) (m : A) (ms : List A)
    → written_with (record_message o m) ms ≡ written_with o (m ∷ ms)
written_twice none m ms = refl
written_twice (some written) m ms = ap some (append_assoc written (m ∷ []) ms)

written_nothing : {A : Type 0} (o : Option (List A)) → written_with o [] ≡ o
written_nothing none = refl
written_nothing (some written) = ap some (append-nil written)

module _ {A : Type 0} {q : EventSink A} where
  open q use {Sink, put}

  -- What a run has done to the receiver.
  pub record HasRun (r : DataReceiver q) (messages : List (Option A)) (r' : DataReceiver q)
      : Type 0 where
    pub destination : r'.destination ≡ put_each q r.destination (valid_messages r.validate messages)
    pub recorder : r'.recorder ≡ written_with r.recorder (valid_messages r.validate messages)
    pub forwarded : r'.forwarded ≡ r.forwarded + length (valid_messages r.validate messages)
    pub invalid : r'.invalid ≡ r.invalid + invalid_messages r.validate messages
    pub in_order : r'.out_of_order + r.forwarded ≤ r.out_of_order + r'.forwarded

  record Received (r : DataReceiver q) (m : A) (r' : DataReceiver q) : Type 0 where
    pub validate : r'.validate ≡ r.validate
    pub destination : r'.destination ≡ put r.destination m
    pub recorder : r'.recorder ≡ record_message r.recorder m
    pub forwarded : r'.forwarded ≡ r.forwarded + 1
    pub invalid : r'.invalid ≡ r.invalid
    pub in_order : r'.out_of_order ≤ r.out_of_order + 1

  receive-Received : (r : DataReceiver q) (m : A) → r.validate m ≡ true → Received r m (receive r m)
  unfolding receive note_sequence
  receive-Received r m v = elim (Option-cases r.sequence_key) [
    | inl e ↦
        rw (v, e)
          (record {
            validate = refl;
            destination = refl;
            recorder = refl;
            forwarded = refl;
            invalid = refl;
            in_order = omega arith;
          })
    | inr (key, e) ↦
        rw (v, e)
          (record {
            validate = refl;
            destination = refl;
            recorder = refl;
            forwarded = refl;
            invalid = refl;
            in_order = ground arith;
          })
  ]

  receive-invalid :
      (r : DataReceiver q) (m : A)
      → r.validate m ≡ false
      → receive r m ≡ record r { invalid = r.invalid + 1 }
  unfolding receive
  receive-invalid r m v = rw v refl

  -- However the messages come, up to STOP: exactly those that pass `validate` are put into the
  -- destination, in the order of their arrival, and written by the recorder, if there is one, in
  -- the same order; `forwarded` counts these, and `invalid` the others; and no more messages are
  -- counted as out of order than are forwarded.
  pub run-HasRun :
      (messages : List (Option A)) (r : DataReceiver q) → HasRun r messages (run r messages).0
  unfolding run valid_messages invalid_messages
  run-HasRun [] r = record {
    destination = refl;
    recorder = sym (written_nothing r.recorder);
    forwarded = omega arith;
    invalid = omega arith;
    in_order = omega arith;
  }
  run-HasRun (none ∷ messages) r = record {
    destination = refl;
    recorder = sym (written_nothing r.recorder);
    forwarded = omega arith;
    invalid = omega arith;
    in_order = omega arith;
  }
  run-HasRun (some m ∷ messages) r = elim (Bool-cases (r.validate m)) [
    | inl v ↦
        let k = receive-Received r m v in
        let h = run-HasRun messages (receive r m) in
        let rest = valid_messages r.validate messages in
        record {
          destination = rw v (rw (k.validate, k.destination) at h.destination);
          recorder =
              rw v ((rw (k.validate, k.recorder) at h.recorder) ∙ written_twice r.recorder m rest);
          forwarded = rw v (omega (arith, k.forwarded, rw k.validate at h.forwarded));
          invalid = rw v (omega (arith, k.invalid, rw k.validate at h.invalid));
          in_order = omega (arith, k.in_order, k.forwarded, h.in_order);
        }
    | inr v ↦
        let h = run-HasRun messages (record r { invalid = r.invalid + 1 }) in
        let skipped = receive-invalid r m v in
        record {
          destination = rw (v, run) h.destination;
          recorder = rw (v, run) h.recorder;
          forwarded = rw (v, run) h.forwarded;
          invalid = rw (v, run) (omega (arith, h.invalid));
          in_order = rw (run, skipped) h.in_order;
        }
  ]
