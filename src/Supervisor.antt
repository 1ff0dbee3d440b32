-- ===== src/Supervisor.antt =====
-- The supervisor of the live order book (src/pipeline.py, `_book_resync_supervisor`): one round of its
-- loop, with what the fetch of a snapshot has given, and the seconds that it sleeps. The recorder
-- is left out. Between two rounds the pipeline applies other updates to the same book.
pub mod Recovery
use deltaengine.Prelude.{
  ℕ, ◌+◌, List, [], ◌∷◌, ◌++◌, Option, none, some, Bool, true, false, if◌then◌else◌, ltb, Result,
  ok, raise,
}
use deltaengine.OrderBook
use deltaengine.OrderBook.{OrderBookUpdate, OrderBookStateManager}
use deltaengine.Normalizer
use deltaengine.Normalizer.{DataNormalizer}

-- `BookResyncCounters`
pub record BookResyncCounters : Type 0 where
  pub resyncs : ℕ
  pub fetch_failures : ℕ

-- The local variables of the loop, and the objects that it shares with the pipeline.
pub record Supervisor : Type 0 where
  pub book_state : OrderBookStateManager
  pub normalizer : DataNormalizer
  pub counters : BookResyncCounters
  pub consecutive_failures : ℕ
  pub synced_once : Bool

-- `_BOOK_RESYNC_BACKOFF_SEC[min(n, 2)]` and `_BOOK_HEALTH_POLL_SEC`
unfoldable pub backoff : ℕ → ℕ
backoff n = if ltb n 1 then 5 else if ltb n 2 then 10 else 30

abbrev pub health_poll : ℕ
health_poll = 1

-- What a fetch gives: an exception, or an event that the normalizer parses.
abbrev pub Fetch : Type 0
Fetch = Option (Result OrderBookUpdate)

-- The branch for an exception: the supervisor, and the seconds of its sleep.
unfoldable pub fail : Supervisor → Supervisor × ℕ
unfolding backoff
fail s = (
  record s {
    counters = record (s.counters) { fetch_failures = s.counters.fetch_failures + 1 };
    consecutive_failures = s.consecutive_failures + 1;
  },
  backoff s.consecutive_failures,
)

-- What follows a snapshot that the book has applied.
unfoldable pub succeed : Supervisor → OrderBookStateManager → OrderBookUpdate → Supervisor × ℕ
unfolding OrderBook.apply_initial_sync
succeed s book u = (
  record s {
    book_state = OrderBook.apply_initial_sync book u.final_update_id;
    counters = record (s.counters) {
      resyncs = if s.synced_once then s.counters.resyncs + 1 else s.counters.resyncs;
    };
    synced_once = true;
    consecutive_failures = 0;
  },
  health_poll,
)

-- What follows `book_state.apply(update)`, which may have raised.
unfoldable pub settle :
    Supervisor
    → OrderBookUpdate
    → Result (OrderBookStateManager × OrderBook.ApplyResult)
    → Supervisor × ℕ
unfolding fail succeed
settle s u (ok r) = succeed s r.0 u
settle s u (raise e) = fail s

-- What follows `normalizer.process_depth(depth_evt)`: without an update the round has failed.
unfoldable pub apply_fetched :
    Supervisor → Result (DataNormalizer × Option OrderBookUpdate) → Supervisor × ℕ
unfolding fail settle OrderBook.apply
apply_fetched s (raise e) = fail s
apply_fetched s (ok (normalizer, none)) = fail (record s { normalizer = normalizer })
apply_fetched s (ok (normalizer, some u)) =
    settle (record s { normalizer = normalizer }) u (OrderBook.apply s.book_state u)

-- The `try` block, from what the fetch has given.
unfoldable pub sync : Supervisor → Fetch → Supervisor × ℕ
unfolding fail apply_fetched Normalizer.process_depth
sync s none = fail s
sync s (some outcome) = apply_fetched s (Normalizer.process_depth s.normalizer outcome)

-- One round of the loop; it fetches only while the book is not initialized.
unfoldable pub supervise : Supervisor → Fetch → Supervisor × ℕ
unfolding sync
supervise s f =
    if s.book_state.initialized
    then (record s { consecutive_failures = 0 }, health_poll)
    else sync s f

-- Some rounds with nothing between them, and their sleeps.
unfoldable pub supervise_all : Supervisor → List Fetch → Supervisor × List ℕ
unfolding supervise
supervise_all s [] = (s, [])
supervise_all s (f ∷ fetches) =
    let r = supervise s f in let rest = supervise_all r.0 fetches in (rest.0, r.1 ∷ rest.1)
