-- ===== src/Supervisor/Recovery.antt =====
-- An unsynced book is synced again by the first snapshot that comes, however many fetches fail before.
use deltaengine.Prelude.{
  ℕ, zero, suc, ◌+◌, List, [], ◌∷◌, ◌++◌, none, some, true, false, if◌then◌else◌, string_eq, ok,
  ◌≡◌, Decimal, pos, refl, sym, ap, ap₂, ◌∙◌, subst, arith,
}
use deltaengine.OrderBook
use deltaengine.OrderBook.{BookLevel, OrderBookUpdate, OrderBookStateManager}
use deltaengine.OrderBook.Levels.{announced_or, last_positive, quantity_at-snapshot_levels}
use deltaengine.Normalizer
use deltaengine.Normalizer.{DataNormalizer}
use deltaengine.Supervisor.{
  Supervisor, backoff, Fetch, fail, succeed, apply_fetched, sync, supervise, supervise_all, settle,
}

-- Fetches that raise.
unfoldable pub failing : ℕ → List Fetch
failing zero = []
failing (suc n) = none ∷ failing n

-- The seconds of sleep after a failure, by the number of failures in a row before it.
abbrev pub sleep_after : ℕ → ℕ
sleep_after zero = 5
sleep_after (suc zero) = 10
sleep_after (suc (suc n)) = 30

-- The sleeps after so many failures in a row, from a number of earlier ones.
abbrev pub sleeps_after : ℕ → ℕ → List ℕ
sleeps_after earlier zero = []
sleeps_after earlier (suc n) = sleep_after earlier ∷ sleeps_after (suc earlier) n

backoff-sleep_after : (n : ℕ) → backoff n ≡ sleep_after n
unfolding backoff
backoff-sleep_after zero = refl
backoff-sleep_after (suc zero) = refl
backoff-sleep_after (suc (suc n)) = ground arith

-- At every price the side holds the positive quantity that the snapshot gives last for it, and
-- nothing where it gives none.
abbrev pub Shows : OrderBook.Side → List BookLevel → Type 0
Shows side levels =
    (p : Decimal) → OrderBook.quantity_at side p ≡ announced_or (last_positive p levels) (pos 0)

snapshot_levels-Shows :
    (levels : List BookLevel) → Shows (OrderBook.snapshot_levels [] levels) levels
unfolding OrderBook.quantity_at
snapshot_levels-Shows levels p = quantity_at-snapshot_levels [] levels p

-- A supervisor with an unsynced book, after so many failures more.
abbrev failed : Supervisor → ℕ → Supervisor
failed s n = record s {
  counters = record (s.counters) { fetch_failures = s.counters.fetch_failures + n };
  consecutive_failures = s.consecutive_failures + n;
}

-- The book, as the snapshot leaves it: with the snapshot's quantities and id, waiting for the first
-- diff; and the counters and the sleeps.
pub record IsRecovered (s : Supervisor) (n : ℕ) (u : OrderBookUpdate) (r : Supervisor × List ℕ)
    : Type 0 where
  pub initialized : r.0.book_state.initialized ≡ true
  pub last_update_id : r.0.book_state.last_update_id ≡ some u.final_update_id
  pub sync_id : r.0.book_state.sync_id ≡ some u.final_update_id
  pub bids : Shows r.0.book_state.bids u.bids
  pub asks : Shows r.0.book_state.asks u.asks
  pub fetch_failures : r.0.counters.fetch_failures ≡ s.counters.fetch_failures + n
  pub resyncs : r.0.counters.resyncs ≡ s.counters.resyncs + (if s.synced_once then 1 else 0)
  pub synced_once : r.0.synced_once ≡ true
  pub reset : r.0.consecutive_failures ≡ 0
  pub sleeps : r.1 ≡ sleeps_after s.consecutive_failures n ++ 1 ∷ []

supervise_fails :
    (s : Supervisor)
    → s.book_state.initialized ≡ false
    → supervise s none ≡ (failed s 1, backoff s.consecutive_failures)
unfolding supervise sync fail
supervise_fails s h = rw h refl

-- The book that a snapshot leaves, behind `apply_initial_sync`.
abbrev synced : OrderBookStateManager → OrderBookUpdate → OrderBookStateManager
synced m u = (OrderBook.apply_snapshot m u).0

process_depth-takes :
    (c : DataNormalizer) (u : OrderBookUpdate)
    → c.has_order_book_mapping ≡ true
    → Normalizer.process_depth c (ok u)
      ≡ ok (record c { depth_processed = c.depth_processed + 1 }, some u)
unfolding Normalizer.process_depth
process_depth-takes c u m = ground arith

apply-snapshot :
    (m : OrderBookStateManager) (u : OrderBookUpdate)
    → u.symbol ≡ m.symbol
    → u.update_type ≡ "SNAPSHOT"
    → OrderBook.apply m u ≡ ok (OrderBook.apply_snapshot m u)
unfolding OrderBook.apply
apply-snapshot m u e k = ground (
  arith,
  string_eq.holds_iff u.symbol m.symbol,
  string_eq.holds_iff u.update_type "SNAPSHOT",
  e,
  k,
)

abbrev counting : Supervisor → Supervisor
counting s = record s {
  normalizer = record (s.normalizer) { depth_processed = s.normalizer.depth_processed + 1 };
}

supervise_applies :
    (s : Supervisor) (u : OrderBookUpdate)
    → s.book_state.initialized ≡ false
    → s.normalizer.has_order_book_mapping ≡ true
    → u.symbol ≡ s.book_state.symbol
    → u.update_type ≡ "SNAPSHOT"
    → supervise s (some (ok u)) ≡ succeed (counting s) (synced s.book_state u) u
unfolding supervise sync apply_fetched settle
supervise_applies s u h m e k =
    rw h refl
    ∙ ap (apply_fetched s) (process_depth-takes s.normalizer u m)
    ∙ ap (settle (counting s) u) (apply-snapshot s.book_state u e k)

succeed-IsRecovered :
    (s : Supervisor) (u : OrderBookUpdate)
    → IsRecovered s 0 u (
      (succeed (counting s) (synced s.book_state u) u).0,
      (succeed (counting s) (synced s.book_state u) u).1 ∷ [],
    )
unfolding succeed OrderBook.apply_snapshot OrderBook.apply_initial_sync
succeed-IsRecovered s u = record {
  initialized = refl;
  last_update_id = refl;
  sync_id = refl;
  bids = snapshot_levels-Shows u.bids;
  asks = snapshot_levels-Shows u.asks;
  fetch_failures = omega arith;
  resyncs = ground arith;
  synced_once = refl;
  reset = refl;
  sleeps = refl;
}

supervise_all_next :
    (s : Supervisor) (f : Fetch) (fetches : List Fetch) (r : Supervisor × ℕ)
    → supervise s f ≡ r
    → supervise_all s (f ∷ fetches)
      ≡ ((supervise_all r.0 fetches).0, r.1 ∷ (supervise_all r.0 fetches).1)
unfolding supervise_all
supervise_all_next s f fetches r e =
    ap
      (λ (x : Supervisor × ℕ). ((supervise_all x.0 fetches).0, x.1 ∷ (supervise_all x.0 fetches).1))
      e

supervise_all_last :
    (s : Supervisor) (f : Fetch) (r : Supervisor × ℕ)
    → supervise s f ≡ r
    → supervise_all s (f ∷ []) ≡ (r.0, r.1 ∷ [])
unfolding supervise_all
supervise_all_last s f r e = ap (λ (x : Supervisor × ℕ). (x.0, x.1 ∷ [])) e

succ_of : (n : ℕ) → n + 1 ≡ suc n
succ_of n = omega arith

-- One failure more before the recovery.
earlier-IsRecovered :
    (s : Supervisor) (n : ℕ) (u : OrderBookUpdate) (r : Supervisor × List ℕ)
    → IsRecovered (failed s 1) n u r
    → IsRecovered s (suc n) u (r.0, backoff s.consecutive_failures ∷ r.1)
earlier-IsRecovered s n u r h = record {
  initialized = h.initialized;
  last_update_id = h.last_update_id;
  sync_id = h.sync_id;
  bids = h.bids;
  asks = h.asks;
  fetch_failures = omega (arith, h.fetch_failures);
  resyncs = h.resyncs;
  synced_once = h.synced_once;
  reset = h.reset;
  sleeps =
      ap₂ (λ d ds. d ∷ ds) (backoff-sleep_after s.consecutive_failures)
        (h.sleeps ∙ ap (λ e. sleeps_after e n ++ 1 ∷ []) (succ_of s.consecutive_failures));
}

-- While the order book is not initialized and nothing else changes it, some fetches that raise, and
-- then one that gives a snapshot of the book's symbol, leave the book initialized with the snapshot's
-- id, waiting for the first diff from that id on, and holding at every price the positive quantity
-- that the snapshot gives last for it, or nothing where it gives none; each failure is counted once,
-- and one resync is counted if there was a sync before; the sleeps are, one for each failure, 5
-- seconds where there was no failure before it in a row, 10 where there was one and 30 from then
-- on, and then one second; and the failures in a row are back at 0.
pub supervise_all-IsRecovered :
    (s : Supervisor) (n : ℕ) (u : OrderBookUpdate)
    → s.book_state.initialized ≡ false
    → s.normalizer.has_order_book_mapping ≡ true
    → u.symbol ≡ s.book_state.symbol
    → u.update_type ≡ "SNAPSHOT"
    → IsRecovered s n u (supervise_all s (failing n ++ some (ok u) ∷ []))
unfolding failing
supervise_all-IsRecovered s zero u h m e k =
    subst (IsRecovered s 0 u)
      (sym (
        supervise_all_last s (some (ok u)) (succeed (counting s) (synced s.book_state u) u)
          (supervise_applies s u h m e k)))
      (succeed-IsRecovered s u)
supervise_all-IsRecovered s (suc n) u h m e k =
    subst (IsRecovered s (suc n) u)
      (sym (
        supervise_all_next s none (failing n ++ some (ok u) ∷ [])
          (failed s 1, backoff s.consecutive_failures) (supervise_fails s h)))
      (earlier-IsRecovered s n u (supervise_all (failed s 1) (failing n ++ some (ok u) ∷ []))
        (supervise_all-IsRecovered (failed s 1) n u h m e k))
