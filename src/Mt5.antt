-- ===== src/Mt5.antt =====
-- The server that pushes results to MT5 clients (src/mt5/adapter.py): the send buffer of a client
-- with its drop policy, and the clients of the server. A client is known by a number in place of
-- its writer. Each operation below is the code between two waits, which the event loop does not
-- interrupt, save for `drop_all` and `heartbeat`, which are made of such pieces; sockets, JSON and
-- the log are left out.
pub mod Session
pub mod Clients
pub mod Heartbeats
pub mod Server
use deltaengine.Prelude.{
  ℕ, ◌+◌, List, [], ◌∷◌, ◌++◌, Option, none, some, Bool, true, false, String, ltb, leb,
  if◌then◌else◌, ◌==◌, nat_eq, string_eq, length, Dict, insert, erase, lookup,
}

-- A message is a dict; `kind` is its "type", if it has one, and `body` the rest.
pub record Message : Type 0 where
  pub kind : Option String
  pub body : String

-- `item.get("type") == "SIGNAL"`
abbrev pub is_signal : Message → Bool
is_signal m = elim m.kind [ none ↦ false | some k ↦ k == "SIGNAL" ]

pub record ClientSession : Type 0 where
  pub maxsize : ℕ
  pub buffer : List Message
  pub consecutive_missed_acks : ℕ
  pub dropped : ℕ

-- `_ClientSession.__init__`
unfoldable pub new_session : ℕ → ClientSession
new_session maxsize = record {
  maxsize = maxsize;
  buffer = [];
  consecutive_missed_acks = 0;
  dropped = 0;
}

-- The search of `put_nowait`: the buffer without its oldest message that is not a SIGNAL.
unfoldable pub evict : List Message → Option (List Message)
evict [] = none
evict (m ∷ ms) =
    let rest = evict ms in
    if is_signal m then elim rest [ none ↦ none | some ms' ↦ some (m ∷ ms') ] else some ms

-- `put_nowait`: the session, and whether a message was dropped.
unfoldable pub put_nowait : ClientSession → Message → ClientSession × Bool
put_nowait s m =
    if ltb (length s.buffer) s.maxsize
    then (record s { buffer = s.buffer ++ m ∷ [] }, false)
    else elim (evict s.buffer) [
      | some rest ↦ (record s { buffer = rest ++ m ∷ []; dropped = s.dropped + 1 }, true)
      | none ↦ (record s { dropped = s.dropped + 1 }, true)
    ]

-- `get`: the oldest message; on an empty buffer it waits.
unfoldable pub get : ClientSession → Option (Message × ClientSession)
get s = elim s.buffer [ [] ↦ none | m ∷ ms ↦ some (m, record s { buffer = ms }) ]

pub record Mt5Server : Type 0 where
  pub max_clients : ℕ
  pub max_buffer_messages : ℕ
  pub clients : Dict ℕ ClientSession
  pub clients_rejected : ℕ
  pub messages_dropped : ℕ

-- The beginning of `_handle_client`: a client that is one too many is rejected.
unfoldable pub connect : Mt5Server → ℕ → Mt5Server
unfolding new_session
connect v client =
    if leb v.max_clients (length v.clients)
    then record v { clients_rejected = v.clients_rejected + 1 }
    else record v { clients = insert client (new_session v.max_buffer_messages) v.clients }

-- The end of `_handle_client`: `self._clients.pop(writer, None)`.
unfoldable pub disconnect : Mt5Server → ℕ → Mt5Server
disconnect v client = record v { clients = erase client v.clients }

-- `_receiver` at an ACK.
unfoldable pub acknowledge : Mt5Server → ℕ → Mt5Server
acknowledge v client = elim (lookup client v.clients) [
  | none ↦ v
  | some s ↦ record v {
    clients = insert client (record s { consecutive_missed_acks = 0 }) v.clients;
  }
]

-- A round of `_sender`: the client's next message, if it has one, is taken and written.
abbrev pub send_from : Mt5Server → ℕ → ClientSession → Mt5Server × Option Message
send_from v client s = elim (get s) [
  | none ↦ (v, none)
  | some (m, s') ↦ (record v { clients = insert client s' v.clients }, some m)
]

unfoldable pub send_next : Mt5Server → ℕ → Mt5Server × Option Message
unfolding get
send_next v client = elim (lookup client v.clients) [
  | none ↦ (v, none)
  | some s ↦ send_from v client s
]

-- One more dropped message, if one was dropped.
abbrev pub count_drop : Bool → ℕ → ℕ
count_drop dropped n = if dropped then n + 1 else n

-- The loop of `broadcast` over the clients, with the messages dropped.
unfoldable pub put_each : Message → Dict ℕ ClientSession → ℕ → Dict ℕ ClientSession × ℕ
put_each m [] n = ([], n)
put_each m ((client, s) ∷ rest) n =
    let (s', dropped) = put_nowait s m in
    let (rest', n') = put_each m rest (count_drop dropped n) in ((client, s') ∷ rest', n')

unfoldable pub broadcast : Mt5Server → Message → Mt5Server
unfolding put_each put_nowait
broadcast v m =
    let (clients, n) = put_each m v.clients v.messages_dropped in
    record v { clients = clients; messages_dropped = n }

-- The first loop of a round of `_heartbeat_loop`, over the clients: one with three missed ACKs is to
-- be dropped, and is sent nothing; the others are sent the heartbeat. It gives the clients, the
-- ones to drop and the messages dropped, and does not wait.
unfoldable pub mark_each : Message → Dict ℕ ClientSession → ℕ → Dict ℕ ClientSession × List ℕ × ℕ
mark_each hb [] n = ([], [], n)
mark_each hb ((client, s) ∷ rest) n =
    let missing : ClientSession = record s {
      consecutive_missed_acks = s.consecutive_missed_acks + 1;
    } in
    let drops = leb 3 missing.consecutive_missed_acks in
    let (s', dropped) = put_nowait missing hb in
    let (rest', to_drop, n') = mark_each hb rest (if drops then n else count_drop dropped n) in
    (
      (client, if drops then missing else s') ∷ rest',
      if drops then client ∷ to_drop else to_drop,
      n',
    )

unfoldable pub mark : Mt5Server → Message → Mt5Server × List ℕ
unfolding mark_each put_nowait
mark v hb =
    let (clients, to_drop, n) = mark_each hb v.clients v.messages_dropped in
    (record v { clients = clients; messages_dropped = n }, to_drop)

-- One round of the second loop: `self._clients.pop(writer, None)`. The loop waits before it, for the
-- lock, and behind it, until the writer is closed.
unfoldable pub drop_client : Mt5Server → ℕ → Mt5Server
drop_client v client = record v { clients = erase client v.clients }

unfoldable pub drop_all : Mt5Server → List ℕ → Mt5Server
unfolding drop_client
drop_all v [] = v
drop_all v (client ∷ to_drop) = drop_all (drop_client v client) to_drop

-- A whole round of `_heartbeat_loop`, where nothing else runs while it waits.
unfoldable pub heartbeat : Mt5Server → Message → Mt5Server
unfolding mark drop_all
heartbeat v hb = let (v', to_drop) = mark v hb in drop_all v' to_drop
