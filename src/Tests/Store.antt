-- ===== src/Tests/Store.antt =====
-- A writer of batches of two rows: candles of two days with events between them, and a flush of
-- trades with a signal.
use deltaengine.Prelude.{
  ℕ, ◌≤◌, List, [], ◌∷◌, ◌++◌, none, some, false, length, lookup, ok, ◌≡◌, refl, arith,
}
use deltaengine.Storage.{
  Table, trades, candles, signals, flow_response_events, Row, Backend, StorageWriter, directory_of,
  directory_eq, file_eq, new_writer, flush,
}
use deltaengine.Storage.Partitions.{rows_in, IsSound, file}
use deltaengine.Storage.Kept.{read}
use deltaengine.Storage.Batches.{Call, add_call, tick_call, call_all, added_to, read-flush}
use deltaengine.Storage.Overwrites.{flush_overwrites}

abbrev backend : Backend
backend = record {
  fails = λ f. false;
  refuses = λ t rows. false;
  after_insert = λ t old new. old ++ new;
}

backend-IsSound : IsSound backend
backend-IsSound = record { writes = λ f. refl; inserts = λ t rows. refl }

abbrev writer : StorageWriter
writer = record {
  batch_size = 2;
  flush_interval_sec = 5;
  buffers = λ t. [];
  last_flush = 0;
  seq = 0;
  written = λ t. 0;
  flushes = 0;
  duplicates = 0;
  disk = [];
  duckdb = λ t. [];
}

first_writer : new_writer 2 5 0 ≡ ok writer
unfolding new_writer
first_writer = refl

abbrev row : ℕ → ℕ → Row
row day content = record { symbol = "BTCUSDT"; timeframe = "1m"; date = day; content = content }

abbrev calls : List Call
calls =
    add_call 1 candles (row 10 1)
    ∷ add_call 2 flow_response_events (row 10 2)
    ∷ add_call 3 candles (row 11 3)
    ∷ tick_call 9
    ∷ add_call 9 candles (row 10 4)
    ∷ []

read-flush_example :
    let r = call_all backend calls writer in
    let closed = flush backend 20 r.0 in
    (r.1 ≡ none)
    × (closed.1 ≡ none)
    × (read (directory_of candles (row 10 0)) closed.0.seq closed.0.disk
        ≡ rows_in candles (directory_of candles (row 10 0)) (added_to candles calls))
read-flush_example =
    read-flush backend candles (row 10 0) 2 5 0 20 writer calls backend-IsSound tt first_writer

-- Both rows of the first day, in their order.
kept_rows :
    rows_in candles (directory_of candles (row 10 0)) (added_to candles calls)
    ≡ row 10 1 ∷ row 10 4 ∷ []
unfolding rows_in directory_of
kept_rows = refl

abbrev full_writer : StorageWriter
full_writer = record writer { buffers = buffered }
  where
    buffered : Table → List Row
    buffered trades = row 10 1 ∷ row 10 2 ∷ []
    buffered signals = row 10 3 ∷ []
    buffered _ = []

one_signal :
    rows_in signals (directory_of signals (row 10 0)) (full_writer.buffers signals) ≡ row 10 3 ∷ []
unfolding rows_in directory_of
one_signal = refl

one_at_least :
    1 ≤ length (rows_in signals (directory_of signals (row 10 0)) (full_writer.buffers signals))
one_at_least = rw one_signal (omega arith)

flush_overwrites_example :
    (directory_of trades (row 10 0) ≡ directory_of signals (row 10 0))
    × (lookup (file (directory_of trades (row 10 0)) 0) (flush backend 7 full_writer).0.disk
        ≡ some (rows_in signals (directory_of signals (row 10 0)) (full_writer.buffers signals)))
flush_overwrites_example =
    flush_overwrites backend 7 full_writer (row 10 0) backend-IsSound one_at_least
