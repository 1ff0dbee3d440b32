-- ===== src/Connector/Rounds.antt =====
-- What one round of the loop does to the states and the messages.
use deltaengine.Prelude.{
  ℕ, ◌+◌, List, [], ◌∷◌, Bool, true, false, if◌then◌else◌, nat_eq, length, ◌≡◌, inl, inr, refl,
  Bool-cases, arith,
}
use deltaengine.EventQueue.Sink.{EventSink}
use deltaengine.Connector.{
  connected, subscribed, reconnecting, Outcome, timeout, refused, streamed, should_reconnect,
  Connector, set_state, log_error, deliver_one, deliver, note_reconnect, receive, round,
}
use deltaengine.Connector.States.{
  subscribes, breaks, IsHistory, moves, IsWaiting, MayEnd, retry, connect, waiting-MayEnd,
}

-- The messages of an attempt.
abbrev pub messages_of : {A : Type 0} → Outcome A → List A
messages_of timeout = []
messages_of refused = []
messages_of (streamed ms e) = ms

module _ {A : Type 0} {q : EventSink A} where
  open q use {received, received-put}

  -- What the delivery of messages changes: the queue and the count of messages.
  record Delivered (c c' : Connector q) (ms : List A) : Type 0 where
    state : c'.state ≡ c.state
    history : c'.state_history ≡ c.state_history
    settings : c'.settings ≡ c.settings
    errors : c'.errors ≡ c.errors
    reconnects : c'.reconnect_count ≡ c.reconnect_count
    stopped : c'.stopped ≡ c.stopped
    messages : c'.messages_out ≡ c.messages_out + length ms
    received : received c'.out ≡ received c.out + length ms

  deliver-Delivered : (ms : List A) (c : Connector q) → Delivered c (deliver c ms) ms
  unfolding deliver
  deliver-Delivered [] c = record {
    state = refl;
    history = refl;
    settings = refl;
    errors = refl;
    reconnects = refl;
    stopped = refl;
    messages = omega arith;
    received = omega arith;
  }
  deliver-Delivered (m ∷ ms) c =
      let h = deliver-Delivered ms (deliver_one c m) in
      record {
        state = h.state;
        history = h.history;
        settings = h.settings;
        errors = h.errors;
        reconnects = h.reconnects;
        stopped = h.stopped;
        messages = omega (arith, h.messages);
        received = omega (arith, h.received, received-put c.out m);
      }

  -- One round, at the head of the loop with the history so far.
  pub record Rounded (c : Connector q) (n : ℕ) (r : Connector q × ℕ × Bool) : Type 0 where
    pub settings : r.0.settings ≡ c.settings
    pub stopped : r.0.stopped ≡ c.stopped
    pub messages : r.0.messages_out ≡ c.messages_out + n
    pub received : received r.0.out ≡ received c.out + n
    pub history : IsHistory r.0.state_history r.0.state
    pub goes_on : r.2 ≡ true → r.0.state ≡ reconnecting
    pub ends : MayEnd r.0.state

  failed-Rounded :
      (c : Connector q) (attempts : ℕ)
      → IsWaiting c.state
      → IsHistory c.state_history c.state
      → Rounded c 0 (round c attempts timeout)
  unfolding round log_error note_reconnect set_state
  failed-Rounded c attempts w h = elim (Bool-cases (should_reconnect c.settings attempts)) [
    | inl e ↦ rw e (record {
      settings = refl;
      stopped = refl;
      messages = omega arith;
      received = omega arith;
      history = moves h (retry w);
      goes_on = λ _. refl;
      ends = inr (inl refl);
    })
    | inr e ↦ rw e (record {
      settings = refl;
      stopped = refl;
      messages = omega arith;
      received = omega arith;
      history = h;
      goes_on = λ f. cc;
      ends = waiting-MayEnd w;
    })
  ]

  -- The connector after the stream: subscribed, and counted as many messages as there were.
  record Received (c : Connector q) (n : ℕ) (c' : Connector q) : Type 0 where
    settings : c'.settings ≡ c.settings
    stopped : c'.stopped ≡ c.stopped
    messages : c'.messages_out ≡ c.messages_out + n
    received : received c'.out ≡ received c.out + n
    history : IsHistory c'.state_history subscribed
    state : c'.state ≡ subscribed

  receive-Received :
      (c : Connector q) (ms : List A) (e : Bool)
      → IsWaiting c.state
      → IsHistory c.state_history c.state
      → Received c (length ms) (receive c ms e)
  unfolding receive set_state log_error
  receive-Received c ms e w h =
      let open_stream = set_state (set_state c connected) subscribed in
      let d = deliver-Delivered ms open_stream in
      let history : IsHistory (deliver open_stream ms).state_history subscribed =
        rw d.history (moves (moves h (connect w)) subscribes) in
      elim (Bool-cases e) [
        | inl broken ↦ rw broken (record {
          settings = d.settings;
          stopped = d.stopped;
          messages = d.messages;
          received = d.received;
          history = history;
          state = d.state;
        })
        | inr clean ↦ rw clean (record {
          settings = d.settings;
          stopped = d.stopped;
          messages = d.messages;
          received = d.received;
          history = history;
          state = d.state;
        })
      ]

  Rounded-ends :
      (c : Connector q) (n : ℕ) (c' : Connector q) → Received c n c' → Rounded c n (c', 0, false)
  Rounded-ends c n c' r = record {
    settings = r.settings;
    stopped = r.stopped;
    messages = r.messages;
    received = r.received;
    history = rw r.state r.history;
    goes_on = λ f. cc;
    ends = inr (inr r.state);
  }

  Rounded-again :
      (c : Connector q) (n : ℕ) (c' : Connector q)
      → Received c n c'
      → Rounded c n (note_reconnect c', 1, true)
  unfolding note_reconnect set_state
  Rounded-again c n c' r = record {
    settings = r.settings;
    stopped = r.stopped;
    messages = r.messages;
    received = r.received;
    history = moves r.history breaks;
    goes_on = λ _. refl;
    ends = inr (inl refl);
  }

  Rounded-if :
      (c : Connector q) (n : ℕ) (b : Bool) (r r' : Connector q × ℕ × Bool)
      → Rounded c n r
      → Rounded c n r'
      → Rounded c n (if b then r else r')
  Rounded-if c n true r r' h h' = h
  Rounded-if c n false r r' h h' = h'

  pub round-Rounded :
      (c : Connector q) (attempts : ℕ) (o : Outcome A)
      → IsWaiting c.state
      → IsHistory c.state_history c.state
      → Rounded c (length (messages_of o)) (round c attempts o)
  unfolding round
  round-Rounded c attempts timeout w h = failed-Rounded c attempts w h
  round-Rounded c attempts refused w h = failed-Rounded c attempts w h
  round-Rounded c attempts (streamed ms e) w h =
      let r = receive-Received c ms e w h in
      Rounded-if c (length ms) _ _ _ (Rounded-ends c (length ms) (receive c ms e) r) (
        Rounded-if c (length ms) _ _ _ (Rounded-again c (length ms) (receive c ms e) r)
          (Rounded-ends c (length ms) (receive c ms e) r))
