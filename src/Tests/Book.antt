-- ===== src/Tests/Book.antt =====
-- The order book at concrete inputs.
use deltaengine.Prelude.{
  ℕ, ◌+◌, List, [], ◌∷◌, none, some, true, false, not, if◌then◌else◌, pos, int_eq, ok, Returns, ◌≡◌,
  ◌↔◌, inr, refl, arith, ◌<◌,
}
use deltaengine.OrderBook.{
  BookLevel, OrderBookUpdate, OrderBookStateManager, new_manager, quantity_at, apply, apply_diff,
  apply_snapshot, snapshot_levels, snapshot_level,
}
use deltaengine.OrderBook.Levels.{last_quantity, announced_or}
use deltaengine.OrderBook.Apply.{IsValid, IsCleared, Follows, apply-IsValid, apply_diff_gap}
use deltaengine.OrderBook.Chain.{apply_all, all_bids, all_asks, chain_quantities}

abbrev level : ℕ → ℕ → BookLevel
level p q = record { price = pos p; quantity = pos q }

abbrev diff : ℕ → ℕ → List BookLevel → OrderBookUpdate
diff before final levels = record {
  event_time = 0;
  symbol = "BTCUSDT";
  update_type = "DIFF";
  first_update_id = some (before + 1);
  final_update_id = final;
  bids = levels;
  asks = [];
  previous_final_update_id = some before;
}

abbrev first_snapshot : OrderBookUpdate
first_snapshot = record (diff 0 100 (level 50 7 ∷ level 49 0 ∷ [])) { update_type = "SNAPSHOT" }

abbrev fresh : OrderBookStateManager
fresh = record {
  symbol = "BTCUSDT";
  bids = [];
  asks = [];
  last_update_id = none;
  initialized = false;
  sync_id = none;
  snapshots_applied = 0;
  diffs_applied = 0;
  diffs_rejected_before_snapshot = 0;
  diffs_stale = 0;
  gaps_detected = 0;
}

-- A new book after the snapshot.
abbrev synced : OrderBookStateManager
synced = record fresh {
  bids = (pos 50, pos 7) ∷ [];
  last_update_id = some 100;
  initialized = true;
  snapshots_applied = 1;
}

synced_from_new : (apply_snapshot (new_manager "BTCUSDT") first_snapshot).0 ≡ synced
unfolding apply_snapshot new_manager snapshot_levels snapshot_level
synced_from_new = refl

synced-IsValid : IsValid synced
synced-IsValid = record {
  synced = refl;
  cleared = tt;
  bids_distinct = (refl, tt);
  asks_distinct = tt;
}

abbrev chain : List OrderBookUpdate
chain = diff 100 103 (level 50 9 ∷ level 51 2 ∷ []) ∷ diff 103 104 (level 50 0 ∷ []) ∷ []

chain_quantities_example :
    Returns
      (λ m'.
        (quantity_at m'.bids (pos 51)
          ≡ announced_or
              (last_quantity (pos 51) (all_bids chain))
              (quantity_at synced.bids (pos 51)))
        × (quantity_at m'.asks (pos 51)
            ≡ announced_or
                (last_quantity (pos 51) (all_asks chain))
                (quantity_at synced.asks (pos 51)))
        × (m'.last_update_id ≡ some 104)
        × (m'.diffs_applied ≡ 2)
        × (m'.gaps_detected ≡ 0))
      (apply_all synced chain)
chain_quantities_example =
    chain_quantities chain synced 100 (pos 51) refl refl refl (refl, tt) tt
      (refl, refl, omega arith, refl, (refl, refl, omega arith, refl, tt))

apply-IsValid_example : Returns (λ r. IsValid r.0) (apply synced (diff 100 103 []))
apply-IsValid_example = apply-IsValid synced (diff 100 103 []) synced-IsValid refl (inr refl)

abbrev foreign : OrderBookUpdate
foreign = record first_snapshot { symbol = "ETHUSDT" }

snapshot_applied :
    apply fresh first_snapshot
    ≡ ok (synced, record { applied = true; reinitialized = false; gap_detected = false })
unfolding apply apply_snapshot snapshot_levels snapshot_level
snapshot_applied = refl

apply_diff_gap_example :
    Returns
      (λ r.
        ((r.1.gap_detected ≡ true) ↔ ((100 < 110) × (¬ Follows 100 (some 105) (some 106))))
        × (r.0.initialized ≡ not r.1.gap_detected)
        × IsCleared r.0.initialized r.0.bids r.0.asks
        × (r.0.gaps_detected ≡ 0 + (if r.1.gap_detected then 1 else 0)))
      (apply_diff synced (diff 105 110 []))
apply_diff_gap_example = apply_diff_gap synced (diff 105 110 []) 100 refl refl refl
