-- ===== src/Pipeline/Replays.antt =====
-- The loop over the recorded events: the normalizer, the book and the calculators together.
use deltaengine.Prelude.{
  ℕ, ◌+◌, List, [], ◌∷◌, ◌++◌, none, String, length, All, Returns, Returns-bind, ◌≡◌, subst, arith,
}
use deltaengine.Normalizer
use deltaengine.Normalizer.{NormalizedTrade, DataNormalizer}
use deltaengine.Pipeline.{handle_each}
use deltaengine.Pipeline.Run.{
  RawEvent, unusable, depth_event, trade_event, Session, apply_update, replay_event, replay_loop,
  finish, run,
}
use deltaengine.Pipeline.Steps.{IsRunning}
use deltaengine.Pipeline.Lockstep.{ids_after, last_after, handle_each-IsRunning}
use deltaengine.Pipeline.Finish.{IsComplete, finish-IsComplete}
use deltaengine.Pipeline.Release.{IsSupplied, process-Supplies, flush-Supplies, depth-IsSupplied}
use deltaengine.Pipeline.Books.{
  joined-IsRunning, apply_update-IsRunning, process_depth-Supplies, IsGoodEvent, IsReplaying,
  IsKnownUpdate,
}

-- Some trades were released.
pub record IsAt (symbol : String) (n room : ℕ) (s : Session) : Type 0 where
  pub emitted : List NormalizedTrade
  pub replaying : IsReplaying symbol n room s emitted

replay_event-IsAt :
    (symbol : String) (n room : ℕ) (s : Session) (e : RawEvent)
    → IsAt symbol n (room + 1) s
    → IsGoodEvent symbol e
    → Returns (IsAt symbol n room) (replay_event s e)
unfolding replay_event
replay_event-IsAt symbol n room s unusable h g =
    let k = h.replaying in
    let c = s.normalizer in
    record {
      emitted = h.emitted;
      replaying = record {
        supplied =
            depth-IsSupplied symbol room c.depth_processed c.depth_rejected c.depth_filtered c
              h.emitted k.supplied;
        running = k.running;
      };
    }
replay_event-IsAt symbol n room s (depth_event outcome) h g =
    let k = h.replaying in
    Returns-bind (λ r. IsSupplied symbol room r.0 h.emitted × IsKnownUpdate symbol r.1)
      (IsAt symbol n room) (Normalizer.process_depth s.normalizer outcome) _
      (process_depth-Supplies symbol room s.normalizer h.emitted outcome k.supplied g)
      (λ m p.
        Returns-bind
          (IsRunning symbol n (length h.emitted) (ids_after [] h.emitted)
            (last_after none h.emitted) none)
          (IsAt symbol n room) (apply_update s.replay m.1) _
          (apply_update-IsRunning symbol n (length h.emitted) (ids_after [] h.emitted)
            (last_after none h.emitted) s.replay m.1 k.running p.1)
          (λ r q. record {
            emitted = h.emitted;
            replaying = record { supplied = p.0; running = q };
          }))
replay_event-IsAt symbol n room s (trade_event outcome) h g =
    let k = h.replaying in
    Returns-bind _ (IsAt symbol n room) (Normalizer.process s.normalizer outcome) _
      (process-Supplies symbol room s.normalizer h.emitted outcome k.supplied g)
      (λ m p.
        Returns-bind _ (IsAt symbol n room) (handle_each s.replay m.1) _
          (handle_each-IsRunning symbol n (length h.emitted) (ids_after [] h.emitted)
            (last_after none h.emitted) s.replay m.1 k.running p.1)
          (λ r q. record {
            emitted = h.emitted ++ m.1;
            replaying = record {
              supplied = p.0;
              running = joined-IsRunning symbol n h.emitted m.1 r q;
            };
          }))

replay_loop-IsAt :
    (symbol : String) (n : ℕ) (s : Session) (events : List RawEvent)
    → IsAt symbol n (length events) s
    → All (IsGoodEvent symbol) events
    → Returns (IsAt symbol n 0) (replay_loop s events)
unfolding replay_loop
replay_loop-IsAt symbol n s [] h g = h
replay_loop-IsAt symbol n s (e ∷ events) h g =
    let next : length (e ∷ events) ≡ length events + 1 = omega arith in
    Returns-bind (IsAt symbol n (length events)) (IsAt symbol n 0) (replay_event s e)
      (λ t. replay_loop t events)
      (replay_event-IsAt symbol n (length events) s e (subst (λ room. IsAt symbol n room s) next h)
        g.0)
      (λ t k. replay_loop-IsAt symbol n t events k g.1)

-- From a session that has released nothing yet.
pub replay-IsComplete :
    (symbol : String) (n : ℕ) (s : Session) (events : List RawEvent)
    → IsAt symbol n (length events) s
    → All (IsGoodEvent symbol) events
    → Returns (λ r. IsComplete r.1.normalized r.0) (run s events)
unfolding run
replay-IsComplete symbol n s events h g =
    Returns-bind (IsAt symbol n 0) (λ r. IsComplete r.1.normalized r.0) (replay_loop s events) _
      (replay_loop-IsAt symbol n s events h g)
      (λ t k.
        let flushed = Normalizer.flush t.normalizer in
        let (delivered, all) =
          flush-Supplies symbol 0 t.normalizer k.emitted k.replaying.supplied in
        Returns-bind
          (IsRunning symbol n (length k.emitted + length flushed.1)
            (ids_after (ids_after [] k.emitted) flushed.1)
            (last_after (last_after none k.emitted) flushed.1) none)
          (λ r. IsComplete r.1.normalized r.0) (handle_each t.replay flushed.1) _
          (handle_each-IsRunning symbol n (length k.emitted) (ids_after [] k.emitted)
            (last_after none k.emitted) t.replay flushed.1 k.replaying.running delivered)
          (λ r q.
            subst (λ c. IsComplete c (finish r)) all
              (finish-IsComplete symbol n (length k.emitted + length flushed.1)
                (ids_after (ids_after [] k.emitted) flushed.1)
                (last_after (last_after none k.emitted) flushed.1) r q)))
