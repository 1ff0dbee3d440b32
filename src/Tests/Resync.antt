-- ===== src/Tests/Resync.antt =====
-- A book that was lost to a gap, and comes back at the third fetch.
use deltaengine.Prelude.{[], ◌∷◌, ◌++◌, none, some, true, false, pos, ok, ◌≡◌, refl}
use deltaengine.OrderBook
use deltaengine.OrderBook.{OrderBookUpdate, OrderBookStateManager}
use deltaengine.Normalizer
use deltaengine.Supervisor.{Supervisor, supervise_all}
use deltaengine.Supervisor.Recovery.{failing, IsRecovered, supervise_all-IsRecovered}

abbrev snapshot : OrderBookUpdate
snapshot = record {
  event_time = 60_000_000;
  symbol = "BTCUSDT";
  update_type = "SNAPSHOT";
  first_update_id = none;
  final_update_id = 25;
  previous_final_update_id = none;
  bids = record { price = pos 100; quantity = pos 3 } ∷ [];
  asks = record { price = pos 101; quantity = pos 4 } ∷ [];
}

-- One failure has come before.
abbrev supervisor : Supervisor
supervisor = record {
  book_state = OrderBook.new_manager "BTCUSDT";
  normalizer = Normalizer.initial true 10_000 500_000;
  counters = record { resyncs = 0; fetch_failures = 4 };
  consecutive_failures = 1;
  synced_once = true;
}

lost : supervisor.book_state.initialized ≡ false
unfolding OrderBook.new_manager
lost = refl

own_book : snapshot.symbol ≡ supervisor.book_state.symbol
unfolding OrderBook.new_manager
own_book = refl

supervise_all-IsRecovered_example :
    IsRecovered supervisor 2 snapshot
      (supervise_all supervisor (failing 2 ++ some (ok snapshot) ∷ []))
supervise_all-IsRecovered_example =
    supervise_all-IsRecovered supervisor 2 snapshot lost refl own_book refl
