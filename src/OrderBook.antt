-- ===== src/OrderBook.antt =====
-- The order book state manager (src/orderflow/orderbook.py): snapshots and diffs applied to two
-- dicts of price levels, with stale and gap detection on the update ids.
pub mod Levels
pub mod Apply
pub mod Chain
use deltaengine.Prelude.{
  ℕ, ◌+◌, List, [], ◌∷◌, Option, none, some, Bool, true, false, not, String, Decimal, ℤ, pos, ltb_ℤ,
  leb, if◌then◌else◌, ◌==◌, nat_eq, int_eq, string_eq, Dict, lookup_or, insert, erase, Result, ok,
  raise, value_error, type_error,
}

pub record BookLevel : Type 0 where
  pub price : Decimal
  pub quantity : Decimal

pub record OrderBookUpdate : Type 0 where
  pub event_time : ℕ
  pub symbol : String
  pub update_type : String
  pub first_update_id : Option ℕ
  pub final_update_id : ℕ
  pub bids : List BookLevel
  pub asks : List BookLevel
  pub previous_final_update_id : Option ℕ

abbrev pub Side : Type 0
Side = Dict Decimal Decimal

pub record OrderBookSnapshot : Type 0 where
  pub symbol : String
  pub last_update_id : ℕ
  pub bids : Side
  pub asks : Side

pub record ApplyResult : Type 0 where
  pub applied : Bool
  pub reinitialized : Bool
  pub gap_detected : Bool

pub record OrderBookStateManager : Type 0 where
  pub symbol : String
  pub bids : Side
  pub asks : Side
  pub last_update_id : Option ℕ
  pub initialized : Bool
  pub sync_id : Option ℕ
  pub snapshots_applied : ℕ
  pub diffs_applied : ℕ
  pub diffs_rejected_before_snapshot : ℕ
  pub diffs_stale : ℕ
  pub gaps_detected : ℕ

-- `OrderBookStateManager.__init__`
unfoldable pub new_manager : String → OrderBookStateManager
new_manager s = record {
  symbol = s;
  bids = [];
  asks = [];
  last_update_id = none;
  initialized = false;
  sync_id = none;
  snapshots_applied = 0;
  diffs_applied = 0;
  diffs_rejected_before_snapshot = 0;
  diffs_stale = 0;
  gaps_detected = 0;
}

-- `dict.get(price, 0)`, as in `bid_quantity_at` and `ask_quantity_at`.
unfoldable pub quantity_at : Side → Decimal → Decimal
quantity_at side price = lookup_or price (pos 0) side

-- One round of the loop of `_apply_levels`.
unfoldable pub apply_level : Side → BookLevel → Side
apply_level side l =
    if l.quantity == pos 0 then erase l.price side else insert l.price l.quantity side

unfoldable pub apply_levels : Side → List BookLevel → Side
apply_levels side [] = side
apply_levels side (l ∷ levels) = apply_levels (apply_level side l) levels

-- One round of the loops of `_apply_snapshot`, which keep the positive quantities.
unfoldable pub snapshot_level : Side → BookLevel → Side
snapshot_level side l = if ltb_ℤ (pos 0) l.quantity then insert l.price l.quantity side else side

unfoldable pub snapshot_levels : Side → List BookLevel → Side
snapshot_levels side [] = side
snapshot_levels side (l ∷ levels) = snapshot_levels (snapshot_level side l) levels

unfoldable pub apply_snapshot :
    OrderBookStateManager → OrderBookUpdate → OrderBookStateManager × ApplyResult
apply_snapshot m u = (
  record m {
    bids = snapshot_levels [] u.bids;
    asks = snapshot_levels [] u.asks;
    last_update_id = some u.final_update_id;
    initialized = true;
    snapshots_applied = m.snapshots_applied + 1;
  },
  record { applied = true; reinitialized = m.initialized; gap_detected = false },
)

-- The continuity test: `pu` where the update has one, else `first_update_id`.
unfoldable pub is_gap : ℕ → OrderBookUpdate → Bool
is_gap last u = elim u.previous_final_update_id [
  | some pu ↦ not (pu == last)
  | none ↦ elim u.first_update_id [ some first ↦ not (first == last + 1) | none ↦ false ]
]

-- The lines that accept a diff, which the code has twice.
unfoldable pub accept_diff :
    OrderBookStateManager → OrderBookUpdate → OrderBookStateManager × ApplyResult
accept_diff m u = (
  record m {
    bids = apply_levels m.bids u.bids;
    asks = apply_levels m.asks u.asks;
    last_update_id = some u.final_update_id;
    diffs_applied = m.diffs_applied + 1;
  },
  record { applied = true; reinitialized = false; gap_detected = false },
)

abbrev pub not_applied : ApplyResult
not_applied = record { applied = false; reinitialized = false; gap_detected = false }

-- The branch for a gap: the state is dropped.
unfoldable pub reset_on_gap : OrderBookStateManager → OrderBookStateManager × ApplyResult
reset_on_gap m = (
  record m {
    bids = [];
    asks = [];
    last_update_id = none;
    initialized = false;
    gaps_detected = m.gaps_detected + 1;
  },
  record { applied = false; reinitialized = false; gap_detected = true },
)

-- A comparison with `None` raises `TypeError` in Python.
unfoldable pub apply_diff :
    OrderBookStateManager → OrderBookUpdate → Result (OrderBookStateManager × ApplyResult)
unfolding accept_diff reset_on_gap
apply_diff m u =
    if not m.initialized
    then ok (
      record m { diffs_rejected_before_snapshot = m.diffs_rejected_before_snapshot + 1 },
      not_applied,
    )
    else elim m.last_update_id [
      | none ↦ raise type_error
      | some last ↦
          if leb u.final_update_id last
          then ok (record m { diffs_stale = m.diffs_stale + 1 }, not_applied)
          else elim m.sync_id [
            | some s ↦ ok (accept_diff (record m { sync_id = none }) u)
            | none ↦ if is_gap last u then ok (reset_on_gap m) else ok (accept_diff m u)
          ]
    ]

unfoldable pub apply :
    OrderBookStateManager → OrderBookUpdate → Result (OrderBookStateManager × ApplyResult)
unfolding apply_snapshot apply_diff
apply m u =
    if not (u.symbol == m.symbol)
    then raise value_error
    else if u.update_type == "SNAPSHOT"
    then ok (apply_snapshot m u)
    else if u.update_type == "DIFF"
    then apply_diff m u
    else raise value_error

unfoldable pub apply_initial_sync : OrderBookStateManager → ℕ → OrderBookStateManager
apply_initial_sync m snapshot_update_id = record m { sync_id = some snapshot_update_id }

-- `snapshot`: `None` before the first snapshot. The copy is a copy of values.
unfoldable pub snapshot : OrderBookStateManager → Option OrderBookSnapshot
snapshot m =
    if m.initialized
    then elim m.last_update_id [
      | none ↦ none
      | some last ↦
          some (record { symbol = m.symbol; last_update_id = last; bids = m.bids; asks = m.asks })
    ]
    else none
