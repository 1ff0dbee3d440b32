-- ===== src/Mt5/Server.antt =====
-- The server: the number of its clients, their buffers and the messages that they lose.
use deltaengine.Prelude.{
  ℕ, ◌+◌, ◌≤◌, List, [], ◌∷◌, some, leb, nat_eq, length, Dict, Distinct, lookup, insert,
  insert-Distinct, erase-Distinct, ◌≡◌, inl, inr, refl, sym, ap, subst, Option-cases, on_if, arith,
}
use deltaengine.Mt5.{
  Message, ClientSession, new_session, put_nowait, get, Mt5Server, connect, disconnect, acknowledge,
  send_next, send_from, count_drop, put_each, broadcast, mark, drop_client,
}
use deltaengine.Mt5.Session.{put_nowait_accounts}
use deltaengine.Mt5.Clients.{
  length-insert-le, length-insert_present, length-erase-le, insert-IsHealthy, erase-IsHealthy,
  lookup-IsHealthy, put_each-IsHealthy, mark_each-IsHealthy, erase_dropped-IsHealthy,
  length-put_each, length-mark_each, keys-put_each, keys-mark_each, IsHealthy, IsValid,
}

-- The server, and the clients that the heartbeat loop still has to drop in its present round.
pub record Running : Type 0 where
  pub server : Mt5Server
  pub to_drop : List ℕ

abbrev pub with : Mt5Server → List ℕ → Running
with v ds = record { server = v; to_drop = ds }

-- What can happen to the server, one piece of code between two waits at a time and in any order. A
-- heartbeat begins when the drops of the one before it are done, and waits before each drop.
pub data Step : Running → Running → Type 0 where
  connects :
      (v : Mt5Server) (ds : List ℕ) (client : ℕ) → Step (with v ds) (with (connect v client) ds)
  disconnects :
      (v : Mt5Server) (ds : List ℕ) (client : ℕ) → Step (with v ds) (with (disconnect v client) ds)
  acknowledges :
      (v : Mt5Server) (ds : List ℕ) (client : ℕ) → Step (with v ds) (with (acknowledge v client) ds)
  sends :
      (v : Mt5Server) (ds : List ℕ) (client : ℕ) → Step (with v ds) (with (send_next v client).0 ds)
  broadcasts :
      (v : Mt5Server) (ds : List ℕ) (m : Message) → Step (with v ds) (with (broadcast v m) ds)
  beats : (v : Mt5Server) (hb : Message) → Step (with v []) (with (mark v hb).0 (mark v hb).1)
  drops :
      (v : Mt5Server) (client : ℕ) (ds : List ℕ)
      → Step (with v (client ∷ ds)) (with (drop_client v client) ds)

pub data Reach (r : Running) : Running → Type 0 where
  here : Reach r r
  next : {s t : Running} → Reach r s → Step s t → Reach r t

connect-IsValid :
    (v : Mt5Server) (ds : List ℕ) (client : ℕ) → IsValid v ds → IsValid (connect v client) ds
unfolding connect new_session
connect-IsValid v ds client h =
    on_if (λ w. IsValid w ds) (leb v.max_clients (length v.clients)) _ _
      (λ _. record { few = h.few; distinct = h.distinct; healthy = h.healthy })
      (λ l.
        let bound = length-insert-le client (new_session v.max_buffer_messages) v.clients in
        record {
          few = ground arith;
          distinct =
              insert-Distinct client (new_session v.max_buffer_messages) v.clients h.distinct;
          healthy =
              insert-IsHealthy v.max_buffer_messages ds client (new_session v.max_buffer_messages)
                v.clients (refl, omega arith, inl (omega arith)) h.healthy;
        })

disconnect-IsValid :
    (v : Mt5Server) (ds : List ℕ) (client : ℕ) → IsValid v ds → IsValid (disconnect v client) ds
unfolding disconnect
disconnect-IsValid v ds client h = record {
  few = omega (arith, length-erase-le client v.clients, h.few);
  distinct = erase-Distinct client v.clients h.distinct;
  healthy = erase-IsHealthy v.max_buffer_messages ds client v.clients h.healthy;
}

-- A client's session is replaced by a healthy one.
replace-IsValid :
    (v : Mt5Server) (ds : List ℕ) (client : ℕ) (s s' : ClientSession)
    → lookup client v.clients ≡ some s
    → IsHealthy v.max_buffer_messages ds (client, s')
    → IsValid v ds
    → IsValid (record v { clients = insert client s' v.clients }) ds
replace-IsValid v ds client s s' found healthy h = record {
  few = omega (arith, length-insert_present client s' s v.clients found, h.few);
  distinct = insert-Distinct client s' v.clients h.distinct;
  healthy = insert-IsHealthy v.max_buffer_messages ds client s' v.clients healthy h.healthy;
}

acknowledge-IsValid :
    (v : Mt5Server) (ds : List ℕ) (client : ℕ) → IsValid v ds → IsValid (acknowledge v client) ds
unfolding acknowledge
acknowledge-IsValid v ds client h = elim (Option-cases (lookup client v.clients)) [
  | inl e ↦ rw (e, acknowledge) h
  | inr (s, e) ↦
      let (size, bound, missed) =
        lookup-IsHealthy v.max_buffer_messages ds client s v.clients h.healthy e in
      let fresh : ClientSession = record s { consecutive_missed_acks = 0 } in
      rw (e, acknowledge) (replace-IsValid v ds client s fresh e (size, bound, inl (omega arith)) h)
]

-- A message is taken from a client's buffer, if it has one.
take-IsValid :
    (v : Mt5Server) (ds : List ℕ) (client : ℕ) (s : ClientSession)
    → lookup client v.clients ≡ some s
    → IsHealthy v.max_buffer_messages ds (client, s)
    → IsValid v ds
    → IsValid (send_from v client s).0 ds
unfolding get
take-IsValid v ds client s found (size, bound, missed) h = taken s.buffer refl
  where
    taken : (b : List Message) → s.buffer ≡ b → IsValid (send_from v client s).0 ds
    taken [] e = rw (e, send_from) h
    taken (m ∷ ms) e =
        let rest : ClientSession = record s { buffer = ms } in
        let shorter : length ms + 1 ≤ v.max_buffer_messages = omega (arith, ap length e) in
        rw (e, send_from, get)
          (replace-IsValid v ds client s rest found (size, omega arith, missed) h)

send_next-IsValid :
    (v : Mt5Server) (ds : List ℕ) (client : ℕ) → IsValid v ds → IsValid (send_next v client).0 ds
unfolding send_next get
send_next-IsValid v ds client h = elim (Option-cases (lookup client v.clients)) [
  | inl e ↦ rw (e, send_next) h
  | inr (s, e) ↦
      rw (e, send_next)
        (take-IsValid v ds client s e
          (lookup-IsHealthy v.max_buffer_messages ds client s v.clients h.healthy e) h)
]

broadcast-IsValid :
    (v : Mt5Server) (ds : List ℕ) (m : Message) → IsValid v ds → IsValid (broadcast v m) ds
unfolding broadcast
broadcast-IsValid v ds m h = record {
  few = omega (arith, length-put_each m v.clients v.messages_dropped, h.few);
  distinct = subst Distinct (sym (keys-put_each m v.clients v.messages_dropped)) h.distinct;
  healthy = put_each-IsHealthy v.max_buffer_messages ds m v.clients v.messages_dropped h.healthy;
}

mark-IsValid : (v : Mt5Server) (hb : Message) → IsValid v [] → IsValid (mark v hb).0 (mark v hb).1
unfolding mark
mark-IsValid v hb h = record {
  few = omega (arith, length-mark_each hb v.clients v.messages_dropped, h.few);
  distinct = subst Distinct (sym (keys-mark_each hb v.clients v.messages_dropped)) h.distinct;
  healthy =
      mark_each-IsHealthy v.max_buffer_messages (mark v hb).1 hb v.clients v.messages_dropped
        h.healthy (λ c e. e);
}

drop_client-IsValid :
    (v : Mt5Server) (client : ℕ) (ds : List ℕ)
    → IsValid v (client ∷ ds)
    → IsValid (drop_client v client) ds
unfolding drop_client
drop_client-IsValid v client ds h = record {
  few = omega (arith, length-erase-le client v.clients, h.few);
  distinct = erase-Distinct client v.clients h.distinct;
  healthy = erase_dropped-IsHealthy v.max_buffer_messages client ds v.clients h.distinct h.healthy;
}

Step-IsValid : {r s : Running} → Step r s → IsValid r.server r.to_drop → IsValid s.server s.to_drop
Step-IsValid (connects v ds client) h = connect-IsValid v ds client h
Step-IsValid (disconnects v ds client) h = disconnect-IsValid v ds client h
Step-IsValid (acknowledges v ds client) h = acknowledge-IsValid v ds client h
Step-IsValid (sends v ds client) h = send_next-IsValid v ds client h
Step-IsValid (broadcasts v ds m) h = broadcast-IsValid v ds m h
Step-IsValid (beats v hb) h = mark-IsValid v hb h
Step-IsValid (drops v client ds) h = drop_client-IsValid v client ds h

-- However connections, ends of connections, ACKs, sends, broadcasts, heartbeats and the drops that
-- follow a heartbeat one by one interleave, a valid server stays valid: it has at most `max_clients`
-- clients, each known once, no client's buffer holds more than `max_buffer_messages`, and every
-- client that has missed three ACKs or more is one that the heartbeat loop still has to drop in its
-- present round.
pub Reach-IsValid :
    {r s : Running} → Reach r s → IsValid r.server r.to_drop → IsValid s.server s.to_drop
Reach-IsValid here h = h
Reach-IsValid (next r st) h = Step-IsValid st (Reach-IsValid r h)

-- The messages that the sessions have dropped.
abbrev pub dropped_by : Dict ℕ ClientSession → ℕ
dropped_by [] = 0
dropped_by ((c, s) ∷ d) = s.dropped + dropped_by d

put_each_accounts :
    (m : Message) (d : Dict ℕ ClientSession) (k : ℕ)
    → (put_each m d k).1 + dropped_by d ≡ k + dropped_by (put_each m d k).0
unfolding put_each
put_each_accounts m [] k = refl
put_each_accounts m ((c, s) ∷ d) k =
    ground
      (arith, put_each_accounts m d (count_drop (put_nowait s m).1 k), (put_nowait_accounts s m).1)

-- A broadcast raises the server's `messages_dropped` by exactly as much as the sessions have
-- dropped in it, and keeps the number of clients.
pub broadcast_accounts :
    (v : Mt5Server) (m : Message)
    → ((broadcast v m).messages_dropped + dropped_by v.clients
        ≡ v.messages_dropped + dropped_by (broadcast v m).clients)
      × (length (broadcast v m).clients ≡ length v.clients)
unfolding broadcast
broadcast_accounts v m = (
  put_each_accounts m v.clients v.messages_dropped,
  length-put_each m v.clients v.messages_dropped,
)
