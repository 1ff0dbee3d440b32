-- ===== src/Connector/Lifecycle.antt =====
-- The life cycle as a whole: the history of states, and that every message reaches the queue.
use deltaengine.Prelude.{
  ℕ, ◌+◌, List, [], ◌∷◌, ◌++◌, Bool, true, ◌||◌, nat_eq, ◌≡◌, ◌↔◌, inl, inr, refl, sym, subst,
  on_if, arith,
}
use deltaengine.EventQueue.Sink.{EventSink}
use deltaengine.Connector.{
  disconnected, connecting, Attempt, Connector, set_state, round, run_loop, run,
}
use deltaengine.Connector.States.{
  IsHistory, begins, moves, IsWaiting, MayEnd, waiting-MayEnd, give_up, not_disconnected,
}
use deltaengine.Connector.Rounds.{round-Rounded}

module _ {A : Type 0} {q : EventSink A} where
  open q use {received, received-put}

  -- What the loop has done when it is left or waits for an attempt that is not listed.
  record Looped (c : Connector q) (r : Connector q × Bool) : Type 0 where
    history : IsHistory r.0.state_history r.0.state
    ends : MayEnd r.0.state
    accounts : received r.0.out + c.messages_out ≡ received c.out + r.0.messages_out

  run_loop-Looped :
      (environment : List (Attempt A)) (c : Connector q) (attempts : ℕ)
      → IsWaiting c.state
      → IsHistory c.state_history c.state
      → Looped c (run_loop c attempts environment)
  unfolding run_loop
  run_loop-Looped [] c attempts w h = record {
    history = h;
    ends = waiting-MayEnd w;
    accounts = refl;
  }
  run_loop-Looped (a ∷ rest) c attempts w h =
      let r = round c attempts a.outcome in
      let k = round-Rounded c attempts a.outcome w h in
      let next : Connector q = record (r.0) { stopped = r.0.stopped || a.stop_called } in
      on_if (Looped c) c.stopped _ _
        (λ _. record { history = h; ends = waiting-MayEnd w; accounts = refl })
        (λ _.
          on_if (Looped c) r.2 _ _
            (λ on.
              let l = run_loop-Looped rest next r.1 (inr (k.goes_on on)) k.history in
              record {
                history = l.history;
                ends = l.ends;
                accounts = omega (arith, l.accounts, k.messages, k.received);
              })
            (λ _. record {
              history = k.history;
              ends = k.ends;
              accounts = omega (arith, k.messages, k.received);
            }))

  -- What `run` has done: its history, when it is disconnected, and its messages.
  pub record HasRun (c : Connector q) (r : Connector q × Bool) : Type 0 where
    pub history : IsHistory r.0.state_history r.0.state
    pub ended : (r.0.state ≡ disconnected) ↔ (r.1 ≡ true)
    pub accounts : received r.0.out + c.messages_out ≡ received c.out + r.0.messages_out

  -- From a new connector, whatever the environment does and whenever it stops, `run` goes through a
  -- history of states that begins with CONNECTING and makes only the listed moves; it ends in
  -- DISCONNECTED exactly if the loop has ended; and its queue has received exactly as many messages
  -- more as it has counted.
  pub run_lifecycle :
      (environment : List (Attempt A)) (c : Connector q)
      → c.state_history ≡ []
      → HasRun c (run c environment)
  unfolding run set_state
  run_lifecycle environment c fresh =
      let l =
        run_loop-Looped environment (set_state c connecting) 0 (inl refl)
          (subst (λ h. IsHistory (h ++ connecting ∷ []) connecting) (sym fresh) begins) in
      on_if (HasRun c) (run_loop (set_state c connecting) 0 environment).1 _ _
        (λ _. record {
          history = moves l.history (give_up l.ends);
          ended = (λ _. refl, λ _. refl);
          accounts = l.accounts;
        })
        (λ _. record {
          history = l.history;
          ended = (λ d. absurd (not_disconnected l.ends d), λ f. cc);
          accounts = l.accounts;
        })
