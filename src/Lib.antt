-- ===== src/Lib.antt =====
-- The verification library of the order-flow engine.
--
-- The engine takes trades and order-book updates of one instrument from an exchange. A connector
-- (src/acquisition/connector.py) keeps a connection alive and puts each message into a bounded
-- queue (src/acquisition/event_queue.py). Behind it a
-- normalizer (src/normalization/normalizer.py) drops duplicates and puts the trades in order; the order
-- book, the volume calculators and the detectors are deterministic folds over its stream
-- (src/orderflow/), and a server pushes results to MT5 clients (src/mt5/adapter.py).
--
-- Prelude: Boolean tests, results, lists, signed integers, sums, dicts.
-- OrderBook (src/orderflow/orderbook.py): `OrderBookStateManager` is a record of the same fields;
--   `apply`, `_apply_snapshot`, `_apply_diff`, `_apply_levels`, `apply_initial_sync` and `snapshot`
--   are functions of the same names. Levels: sets of levels; Apply: one call; Chain: runs of calls.
-- Trades, Cvd (src/orderflow/cvd.py): `CvdCalculator`, its `process`, `_update_bar` (in `advance`) and
--   `finalize`, and the fold `run`.
-- Footprint (src/orderflow/footprint.py): `FootprintCalculator.process_trade`, `to_levels`, `finalize`.
-- EventQueue (src/acquisition/event_queue.py): `put` under both policies, `get`. Sink is the interface
--   through which the connector uses the queue.
-- Connector (src/acquisition/connector.py): `run`, with one `round` for each pass of its loop.
-- Mt5 (src/mt5/adapter.py): `_ClientSession` and `MT5Server`, each operation the code between two
--   waits, and any interleaving of them as a step relation (Server), in which the heartbeat loop waits
--   before each client that it drops.
-- Normalizer (src/normalization/normalizer.py): `DataNormalizer` from the outcome of `normalize_raw` on.
--   `process` is split into `take`, `admit` and `release`. Buffer: the reorder buffer and the window of
--   ids; Process: one call; Stream and Unique: the fold `run`.
-- VolumeRef (src/orderflow/volume_ref.py): `observe_bar` and `current`.
-- Divergence (src/orderflow/divergence.py): `update`, split at its returns, and `_evaluate`.
-- Imbalance (src/orderflow/imbalance.py): `detect` over a footprint bar, and `_find_stacked`, whose runs
--   are kept by their ends in place of two indices.
-- Absorption (src/orderflow/absorption.py): `observe_trade` (`slide`, then `evaluate`), over snapshots of
--   the order book and the average of VolumeRef.
-- MultiTimeframe (src/orderflow/multi_timeframe.py): `process` over the calculators of all timeframes.
-- Receiver (src/acquisition/receiver.py): `DataReceiver.run`, over an `EventSink` as its destination.
-- Sweep (src/orderflow/flow_detector.py): `SweepDetector`; `fire` is `process` from the cooldown on.
-- UnfinishedAuction (src/orderflow/flow_detector.py): `UnfinishedAuctionDetector` over a footprint bar.
-- FlowResponse (src/orderflow/flow_price_response.py): Detector is `process`, `_snapshot` and `finalize`;
--   Volumes, Tracking and Stream prove what its buckets hold; Outcomes is the tracker of outcomes,
--   which Reference proves against the outcomes that each snapshot is to have (Firsts).
-- Health (src/monitor/health.py): `evaluate`, whose records are the entries of `entries_of`. Windows and
--   Counters: the counter checks; Days: `anomalies_today`; Dead: the death of the pipeline.
-- Signals (src/orderflow/signal.py, src/ai/analysis.py): the two evaluations behind a bar.
-- Pipeline (src/pipeline.py, `ReplayPipeline`): `handle` and `_evaluate_and_store`; Run is `run` over the
--   events of a recording. Positive: closed bars have volume; Tally: what the rows sum to; Flow, Steps,
--   Lockstep and Finish: one trade and the end; Release, Books, Replays and Sessions: a whole recording.
-- Storage (src/database/storage.py, `StorageWriter`): a call gives the writer that it leaves and the
--   exception, if there is one. Partitions: one table of a flush; Flushes: a whole one; Kept,
--   Batches and Overwrites: what the files hold.
-- Supervisor (src/pipeline.py, `_book_resync_supervisor`): one round of its loop for each fetch.
--   Recovery: failures, and then a snapshot.
-- Tape (src/orderflow/flow_detector.py, `TapeAnalyzer`): Intervals proves the spacing of its events.
-- Tests: the theorems at concrete inputs.
--
-- Conventions. A `Decimal` is a whole number of one smallest unit, fixed for the program, so sums,
-- differences and comparisons are exact; that Python rounds to 28 digits is not modelled. A time
-- is in whole microseconds since the Unix epoch, in UTC, and ids are natural numbers. A side string
-- is "BUY", "SELL" or any other. A dict is an association list in insertion order, a set a list of
-- its members. What raises in Python is a value of `Result`; what would wait for another task is
-- `none`, or no step. Texts for the log are left out.
--
-- A quotient of two Decimals is kept as the pair of them, and compared by multiplication.
--
-- Loops are structural recursion on the list that the code iterates over; the loop of the connector is
-- recursion on the environment's list of connection attempts, which says how each attempt goes. No
-- fuel is used.
--
-- Not modelled: the other flow detectors, how a raw event is parsed (`normalize_raw`), the live pipeline, network, DuckDB and Parquet themselves, the samples of the open interest, the web pages, the configuration, the tools.
pub mod Absorption
pub mod Connector
pub mod Cvd
pub mod Divergence
pub mod EventQueue
pub mod FlowResponse
pub mod Footprint
pub mod Health
pub mod Imbalance
pub mod Mt5
pub mod MultiTimeframe
pub mod Normalizer
pub mod OrderBook
pub mod Pipeline
pub mod Prelude
pub mod Receiver
pub mod Signals
pub mod Storage
pub mod Supervisor
pub mod Sweep
pub mod Tape
pub mod Tests
pub mod Trades
pub mod UnfinishedAuction
pub mod VolumeRef
