-- ===== src/Storage.antt =====
-- The storage writer (src/database/storage.py): rows are buffered by table, and a flush writes each
-- buffer to the Parquet files of its partitions and to DuckDB. The files are a dictionary from paths
-- to rows. The samples of the open interest, which are merged by the hour, are left out.
pub mod Partitions
pub mod Flushes
pub mod Kept
pub mod Batches
pub mod Overwrites
use deltaengine.Prelude.{
  ℕ, ◌+◌, ◌-◌, List, [], ◌∷◌, ◌++◌, Option, none, some, Bool, true, false, ◌&&◌, ◌||◌, not,
  if◌then◌else◌, ltb, leb, Eq, ◌==◌, string_eq, nat_eq, String, Dict, lookup_or, insert, length,
  ◌↔◌, ◌≡◌, refl, arith, Result, ok, raise, value_error,
}

-- The tables, in the order in which `flush` writes them.
pub data Table : Type 0 where
  trades candles signals flow_response_events flow_response_outcomes : Table

-- A row, as far as storage looks at it: the partition's columns, the date of the table's time
-- column, and what else is in it.
pub record Row : Type 0 where
  pub symbol : String
  pub timeframe : String
  pub date : ℕ
  pub content : ℕ

-- What `_partition_dir` puts together, below the base.
pub record Directory : Type 0 where
  pub dataset : Option String
  pub symbol : String
  pub timeframe : Option String
  pub date : ℕ

abbrev pub option_holds : Option String → Option String → Bool
option_holds none none = true
option_holds (some a) (some b) = a == b
option_holds _ _ = false

pub option_holds_iff : (a b : Option String) → (option_holds a b ≡ true) ↔ (a ≡ b)
option_holds_iff none none = ground arith
option_holds_iff none (some b) = ground arith
option_holds_iff (some a) none = ground arith
option_holds_iff (some a) (some b) = ground (arith, string_eq.holds_iff a b)

abbrev pub directory_holds : Directory → Directory → Bool
directory_holds a b =
    option_holds a.dataset b.dataset
    && a.symbol == b.symbol
    && option_holds a.timeframe b.timeframe
    && a.date == b.date

pub directory_holds_iff : (a b : Directory) → (directory_holds a b ≡ true) ↔ (a ≡ b)
directory_holds_iff a b = ground (
  arith,
  option_holds_iff a.dataset b.dataset,
  string_eq.holds_iff a.symbol b.symbol,
  option_holds_iff a.timeframe b.timeframe,
)

instance abbrev pub directory_eq : Eq Directory
directory_eq = record { holds = directory_holds; holds_iff = directory_holds_iff }

-- A directory, and the number in `part-…parquet`.
pub record File : Type 0 where
  pub directory : Directory
  pub seq : ℕ

pub file_holds_iff :
    (a b : File) → ((a.directory == b.directory && a.seq == b.seq) ≡ true) ↔ (a ≡ b)
file_holds_iff a b = ground (arith, directory_holds_iff a.directory b.directory)

instance abbrev pub file_eq : Eq File
file_eq = record {
  holds = λ a b. a.directory == b.directory && a.seq == b.seq;
  holds_iff = file_holds_iff;
}

-- What the writer calls: whether `pq.write_table` fails on a file, whether DuckDB refuses a batch,
-- and what a table has after `INSERT` with `ON CONFLICT DO NOTHING`.
pub record Backend : Type 0 where
  pub fails : File → Bool
  pub refuses : Table → List Row → Bool
  pub after_insert : Table → List Row → List Row → List Row

-- E4001 and E4002.
pub data StorageError : Type 0 where
  parquet_write duckdb_write : StorageError

abbrev pub is_table : Table → Table → Bool
is_table trades trades = true
is_table candles candles = true
is_table signals signals = true
is_table flow_response_events flow_response_events = true
is_table flow_response_outcomes flow_response_outcomes = true
is_table _ _ = false

-- One field for each table: `_trades`, `_candles`, … and `trades_written`, `candles_written`, ….
abbrev pub set {ℓ} : {A : Type ℓ} → Table → A → (Table → A) → Table → A
set t a f u = if is_table t u then a else f u

pub record StorageWriter : Type 0 where
  pub batch_size : ℕ
  pub flush_interval_sec : ℕ
  pub buffers : Table → List Row
  pub last_flush : ℕ
  pub seq : ℕ
  pub written : Table → ℕ
  pub flushes : ℕ
  pub duplicates : ℕ
  pub disk : Dict File (List Row)
  pub duckdb : Table → List Row

-- `StorageWriter.__init__`, with no file and no row from an earlier run; the clock is the last
-- argument.
unfoldable pub new_writer : ℕ → ℕ → ℕ → Result StorageWriter
new_writer batch_size interval now =
    if ltb batch_size 1
    then raise value_error
    else if ltb interval 1
    then raise value_error
    else ok (record {
      batch_size = batch_size;
      flush_interval_sec = interval;
      buffers = λ t. [];
      last_flush = now;
      seq = 0;
      written = λ t. 0;
      flushes = 0;
      duplicates = 0;
      disk = [];
      duckdb = λ t. [];
    })

-- The directory that `_write_parquet` gives a row, with the arguments that `flush` calls it with:
-- only the tables of the flow response have a dataset, and only candles have a timeframe.
unfoldable pub directory_of : Table → Row → Directory
directory_of t r = record {
  dataset = dataset t;
  symbol = r.symbol;
  timeframe = timeframe t;
  date = r.date;
}
  where
    dataset : Table → Option String
    dataset flow_response_events = some "flow_response_events"
    dataset flow_response_outcomes = some "flow_response_outcomes"
    dataset _ = none

    timeframe : Table → Option String
    timeframe candles = some r.timeframe
    timeframe _ = none

-- The rows of each partition, in their order.
unfoldable pub groups_of : Table → Dict Directory (List Row) → List Row → Dict Directory (List Row)
unfolding directory_of
groups_of t groups [] = groups
groups_of t groups (r ∷ rows) =
    let d = directory_of t r in groups_of t (insert d (lookup_or d [] groups ++ r ∷ []) groups) rows

-- The loop of `_write_parquet` over the partitions.
unfoldable pub write_groups :
    Backend
    → ℕ
    → Dict Directory (List Row)
    → Dict File (List Row)
    → Dict File (List Row) × Option StorageError
write_groups b seq [] disk = (disk, none)
write_groups b seq ((d, rows) ∷ groups) disk =
    let file : File = record { directory = d; seq = seq } in
    let rest = write_groups b seq groups (insert file rows disk) in
    if b.fails file then (disk, some parquet_write) else rest

-- The insert into DuckDB, and what follows it in `flush`: the count of the first three tables is
-- of the buffer, that of the others of what was inserted.
unfoldable pub insert_rows :
    Backend → Table → List Row → StorageWriter → StorageWriter × Option StorageError
insert_rows b t rows s =
    let after = b.after_insert t (s.duckdb t) rows in
    let inserted = length after - length (s.duckdb t) in
    if b.refuses t rows then (s, some duckdb_write) else (
      record s {
        duckdb = set t after s.duckdb;
        duplicates = s.duplicates + skipped t inserted;
        written = set t (s.written t + counted t inserted) s.written;
        buffers = set t [] s.buffers;
      },
      none,
    )
  where
    counted : Table → ℕ → ℕ
    counted flow_response_events inserted = inserted
    counted flow_response_outcomes inserted = inserted
    counted _ inserted = length rows

    skipped : Table → ℕ → ℕ
    skipped signals inserted = 0
    skipped _ inserted = length rows - inserted

-- The insert, unless the files could not be written.
unfoldable pub insert_unless :
    Backend
    → Table
    → List Row
    → StorageWriter
    → Option StorageError
    → StorageWriter × Option StorageError
unfolding insert_rows
insert_unless b t rows s none = insert_rows b t rows s
insert_unless b t rows s (some e) = (s, some e)

-- The part of `flush` for one table.
unfoldable pub flush_table :
    Backend → Table → List Row → StorageWriter → StorageWriter × Option StorageError
unfolding groups_of write_groups insert_unless
flush_table b t [] s = (s, none)
flush_table b t (r ∷ rows) s =
    let w = write_groups b s.seq (groups_of t [] (r ∷ rows)) s.disk in
    insert_unless b t (r ∷ rows) (record s { disk = w.0 }) w.1

-- The tables from one on; an exception ends the flush.
unfoldable pub flush_tables :
    Backend → ℕ → List Table → StorageWriter → StorageWriter × Option StorageError
unfolding flush_table
flush_tables b now [] s =
    (record s { seq = s.seq + 1; last_flush = now; flushes = s.flushes + 1 }, none)
flush_tables b now (t ∷ ts) s =
    let r = flush_table b t (s.buffers t) s in
    elim r.1 [ none ↦ flush_tables b now ts r.0 | some e ↦ (r.0, some e) ]

abbrev pub all_tables : List Table
all_tables = trades ∷ candles ∷ signals ∷ flow_response_events ∷ flow_response_outcomes ∷ []

-- `flush`; `close` is a flush before DuckDB is closed.
unfoldable pub flush : Backend → ℕ → StorageWriter → StorageWriter × Option StorageError
unfolding flush_tables
flush b now s = flush_tables b now all_tables s

-- `add_trade`, `add_candle` and the others.
unfoldable pub add : Backend → ℕ → Table → Row → StorageWriter → StorageWriter × Option StorageError
unfolding flush
add b now t r s =
    let added = record s { buffers = set t (s.buffers t ++ r ∷ []) s.buffers } in
    if leb s.batch_size (length (s.buffers t) + 1) then flush b now added else (added, none)

abbrev pub has_rows : List Table → (Table → List Row) → Bool
has_rows [] buffers = false
has_rows (t ∷ ts) buffers = not (length (buffers t) == 0) || has_rows ts buffers

-- `tick`
unfoldable pub tick : Backend → ℕ → StorageWriter → StorageWriter × Option StorageError
unfolding flush
tick b now s =
    if leb (s.last_flush + s.flush_interval_sec) now && has_rows all_tables s.buffers
    then flush b now s
    else (s, none)
