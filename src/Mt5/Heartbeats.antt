-- ===== src/Mt5/Heartbeats.antt =====
-- The loss of clients that do not acknowledge the heartbeats.
use deltaengine.Prelude.{
  ℕ, ◌+◌, ◌≤◌, List, [], ◌∷◌, true, leb, ◌==◌, nat_eq, nat_eqb_iff, All, Dict, keys, erase, ◌≡◌,
  refl, sym, ap, ◌∙◌, inl, inr, Bool-cases, on_if, arith,
}
use deltaengine.Mt5.{
  Message, ClientSession, Mt5Server, mark_each, mark, drop_client, drop_all, heartbeat,
}
use deltaengine.Mt5.Clients.{put_nowait_keeps, missing_of, mark_count, keys-mark_each}

abbrev HasMissed : ℕ → Dict ℕ ClientSession → Type 0
HasMissed k d = All (λ e. k ≤ e.1.consecutive_missed_acks) d

mark_each-HasMissed :
    (j : ℕ) (hb : Message) (d : Dict ℕ ClientSession) (k : ℕ)
    → HasMissed j d
    → HasMissed (j + 1) (mark_each hb d k).0
unfolding mark_each
mark_each-HasMissed j hb [] k a = tt
mark_each-HasMissed j hb ((c, s) ∷ d) k (h, a) =
    let rest = mark_each-HasMissed j hb d (mark_count hb s k) a in
    let kept = put_nowait_keeps (missing_of s) hb in
    elim (Bool-cases (leb 3 (s.consecutive_missed_acks + 1))) [
      | inl l ↦ rw l (omega arith, rw l at rest)
      | inr l ↦ rw l (omega (arith, kept.1), rw l at rest)
    ]

mark_each_last :
    (hb : Message) (d : Dict ℕ ClientSession) (k : ℕ)
    → HasMissed 2 d
    → (mark_each hb d k).1 ≡ keys d
unfolding mark_each
mark_each_last hb [] k a = refl
mark_each_last hb ((c, s) ∷ d) k (h, a) =
    let l : leb 3 (s.consecutive_missed_acks + 1) ≡ true = ground arith in
    rw l (ap (λ cs. c ∷ cs) (mark_each_last hb d k a))

erase-HasMissed : (j c : ℕ) (d : Dict ℕ ClientSession) → HasMissed j d → HasMissed j (erase c d)
erase-HasMissed j c [] a = tt
erase-HasMissed j c ((i, s) ∷ d) (h, a) =
    on_if (HasMissed j) (i == c) d ((i, s) ∷ erase c d) (λ _. a) (λ _. (h, erase-HasMissed j c d a))

drop_all-HasMissed :
    (j : ℕ) (v : Mt5Server) (ds : List ℕ)
    → HasMissed j v.clients
    → HasMissed j (drop_all v ds).clients
unfolding drop_all drop_client
drop_all-HasMissed j v [] a = a
drop_all-HasMissed j v (c ∷ ds) a =
    drop_all-HasMissed j (drop_client v c) ds (erase-HasMissed j c v.clients a)

-- All clients are dropped.
drop_all-keys :
    (v : Mt5Server) (d : Dict ℕ ClientSession) → v.clients ≡ d → (drop_all v (keys d)).clients ≡ []
unfolding drop_all drop_client
drop_all-keys v [] e = e
drop_all-keys v ((c, s) ∷ d) e =
    drop_all-keys (drop_client v c) d (ap (λ x. erase c x) e ∙ first_erased)
  where
    first_erased : erase c ((c, s) ∷ d) ≡ d
    first_erased = let same = (nat_eqb_iff c c).1 refl in rw same refl

heartbeat-HasMissed :
    (j : ℕ) (v : Mt5Server) (hb : Message)
    → HasMissed j v.clients
    → HasMissed (j + 1) (heartbeat v hb).clients
unfolding heartbeat mark
heartbeat-HasMissed j v hb a =
    drop_all-HasMissed (j + 1) (mark v hb).0 (mark v hb).1
      (mark_each-HasMissed j hb v.clients v.messages_dropped a)

heartbeat_last :
    (v : Mt5Server) (hb : Message) → HasMissed 2 v.clients → (heartbeat v hb).clients ≡ []
unfolding heartbeat mark
heartbeat_last v hb a =
    ap (λ ds. (drop_all (mark v hb).0 ds).clients)
      (mark_each_last hb v.clients v.messages_dropped a
        ∙ sym (keys-mark_each hb v.clients v.messages_dropped))
    ∙ drop_all-keys (mark v hb).0 (mark v hb).0.clients refl

none_missed : (d : Dict ℕ ClientSession) → HasMissed 0 d
none_missed [] = tt
none_missed (e ∷ d) = (omega arith, none_missed d)

-- Three heartbeats in a row, with nothing else between their steps and so with no ACK, leave the
-- server without any client, whatever its clients were.
pub three_heartbeats :
    (v : Mt5Server) (a b c : Message) → (heartbeat (heartbeat (heartbeat v a) b) c).clients ≡ []
three_heartbeats v a b c =
    let first = heartbeat v a in
    let second = heartbeat first b in
    let h1 = heartbeat-HasMissed 0 v a (none_missed v.clients) in
    heartbeat_last second c (heartbeat-HasMissed 1 first b h1)
