-- ===== src/Normalizer.antt =====
-- The data normalizer (src/normalization/normalizer.py), from the outcome of `normalize_raw` on: the
-- window of recent ids, the reorder buffer with its watermark, and the depth path's counters. What
-- `normalize_raw` makes of a raw event is the argument of `process`: a trade, a
-- `NormalizationError`, or another exception, which `process` does not catch.
pub mod Buffer
pub mod Process
pub mod Stream
pub mod Unique
use deltaengine.Prelude.{
  ℕ, ◌+◌, ◌*◌, List, [], ◌∷◌, ◌++◌, map, Option, none, some, Bool, true, false, not, ◌&&◌, ◌||◌,
  String, Decimal, ltb, leb, if◌then◌else◌, ◌==◌, nat_eq, contains, length, Result, ok, raise,
  normalization_error, value_error, type_error, division_error, ◌>>=◌,
}
use deltaengine.Trades.{Time, TradeSide, is_earlier}
use deltaengine.OrderBook.{OrderBookUpdate}

pub record NormalizedTrade : Type 0 where
  pub event_time : Time
  pub trade_time : Time
  pub trade_id : ℕ
  pub symbol : String
  pub price : Decimal
  pub quantity : Decimal
  pub side : TradeSide

-- `(event_time, seq, trade)`, as the buffer holds it.
pub record Entry : Type 0 where
  pub time : Time
  pub seq : ℕ
  pub trade : NormalizedTrade

pub record DataNormalizer : Type 0 where
  pub has_order_book_mapping : Bool
  pub dedup_window : ℕ
  pub tolerance : Time
  pub recent_ids : List ℕ
  pub recent_set : List ℕ
  pub buffer : List Entry
  pub seq : ℕ
  pub newest_seen : Option Time
  pub last_emitted : Option Time
  pub processed : ℕ
  pub duplicates : ℕ
  pub reordered : ℕ
  pub rejected : ℕ
  pub depth_processed : ℕ
  pub depth_rejected : ℕ
  pub depth_filtered : ℕ

abbrev pub initial : Bool → ℕ → Time → DataNormalizer
initial mapping window tolerance = record {
  has_order_book_mapping = mapping;
  dedup_window = window;
  tolerance = tolerance;
  recent_ids = [];
  recent_set = [];
  buffer = [];
  seq = 0;
  newest_seen = none;
  last_emitted = none;
  processed = 0;
  duplicates = 0;
  reordered = 0;
  rejected = 0;
  depth_processed = 0;
  depth_rejected = 0;
  depth_filtered = 0;
}

-- `DataNormalizer.__init__`; the tolerance in milliseconds is not negative.
unfoldable pub new_normalizer : Bool → ℕ → ℕ → Result DataNormalizer
new_normalizer mapping window tolerance_ms =
    if ltb window 1 then raise value_error else ok (initial mapping window (tolerance_ms * 1_000))

-- `set.discard`
unfoldable pub discard : ℕ → List ℕ → List ℕ
discard k [] = []
discard k (x ∷ xs) = let rest = discard k xs in if x == k then rest else x ∷ rest

-- `_register`, on the ids and the set: where the window is too long, its oldest id goes, out of the
-- set too unless it is still in the window.
unfoldable pub trim : ℕ → List ℕ → List ℕ → List ℕ × List ℕ
unfolding discard
trim window [] seen = ([], seen)
trim window (x ∷ ids) seen =
    if ltb window (length (x ∷ ids))
    then (ids, if contains ids x then seen else discard x seen)
    else (x ∷ ids, seen)

unfoldable pub register : DataNormalizer → ℕ → DataNormalizer
unfolding trim
register c id =
    let (ids, seen) = trim c.dedup_window (c.recent_ids ++ id ∷ []) (id ∷ c.recent_set) in
    record c { recent_ids = ids; recent_set = seen }

-- The order of the tuples: by time, then by `seq`. No two entries share a `seq`.
abbrev pub precedes : Entry → Entry → Bool
precedes a b = ltb a.time b.time || a.time == b.time && ltb a.seq b.seq

-- `bisect.insort`
unfoldable pub insort : Entry → List Entry → List Entry
insort e [] = e ∷ []
insort e (x ∷ xs) = if precedes e x then e ∷ x ∷ xs else x ∷ insort e xs

-- The loop of `_release`: what it emits, the buffer that is left, and the last time emitted.
unfoldable pub release_loop :
    Time → Time → List Entry → Option Time → List NormalizedTrade × List Entry × Option Time
release_loop tolerance newest [] last = ([], [], last)
release_loop tolerance newest (e ∷ es) last =
    let rest = release_loop tolerance newest es (some e.trade.event_time) in
    if leb (e.time + tolerance) newest
    then (e.trade ∷ rest.0, rest.1, rest.2)
    else ([], e ∷ es, last)

unfoldable pub release : DataNormalizer → DataNormalizer × List NormalizedTrade
unfolding release_loop
release c = elim c.newest_seen [
  | none ↦ (c, [])
  | some newest ↦
      let (emitted, buffer, last) = release_loop c.tolerance newest c.buffer c.last_emitted in
      (record c { buffer = buffer; last_emitted = last }, emitted)
]

-- `max` of the newest time and this one.
abbrev pub newer : Option Time → Time → Time
newer none t = t
newer (some newest) t = if ltb newest t then t else newest

-- The lines of `process` for an accepted trade, up to the release.
unfoldable pub admit : DataNormalizer → NormalizedTrade → DataNormalizer
unfolding register insort
admit c t =
    let counted = record c {
      reordered = if is_earlier t.event_time c.newest_seen then c.reordered + 1 else c.reordered;
    } in
    let registered = register counted t.trade_id in
    record registered {
      buffer = insort (record { time = t.event_time; seq = c.seq; trade = t }) c.buffer;
      seq = c.seq + 1;
      newest_seen = some (newer c.newest_seen t.event_time);
      processed = c.processed + 1;
    }

-- `process` of a normalized trade.
unfoldable pub take : DataNormalizer → NormalizedTrade → DataNormalizer × List NormalizedTrade
unfolding admit release
take c t =
    if contains c.recent_set t.trade_id
    then (record c { duplicates = c.duplicates + 1 }, [])
    else if is_earlier t.event_time c.last_emitted
    then (record c { rejected = c.rejected + 1 }, [])
    else release (admit c t)

unfoldable pub process :
    DataNormalizer → Result NormalizedTrade → Result (DataNormalizer × List NormalizedTrade)
unfolding take
process c (ok t) = ok (take c t)
process c (raise normalization_error) = ok (record c { rejected = c.rejected + 1 }, [])
process c (raise e) = raise e

-- The time of the last entry of the buffer, where there is one.
abbrev pub last_time : Option Time → List Entry → Option Time
last_time last [] = last
last_time last (e ∷ es) = last_time (some e.time) es

unfoldable pub flush : DataNormalizer → DataNormalizer × List NormalizedTrade
flush c = (
  record c { buffer = []; last_emitted = last_time c.last_emitted c.buffer },
  map (λ e. e.trade) c.buffer,
)

-- `process_depth`
unfoldable pub process_depth :
    DataNormalizer → Result OrderBookUpdate → Result (DataNormalizer × Option OrderBookUpdate)
process_depth c outcome =
    if not c.has_order_book_mapping
    then ok (record c { depth_filtered = c.depth_filtered + 1 }, none)
    else elim outcome [
      | ok u ↦ ok (record c { depth_processed = c.depth_processed + 1 }, some u)
      | raise normalization_error ↦ ok (record c { depth_rejected = c.depth_rejected + 1 }, none)
      | raise value_error ↦ raise value_error
      | raise type_error ↦ raise type_error
      | raise division_error ↦ raise division_error
    ]

pub record NrmRun : Type 0 where
  pub emitted : List NormalizedTrade
  pub processed : ℕ
  pub duplicates : ℕ
  pub reordered : ℕ
  pub rejected : ℕ

-- The loop of `run`.
unfoldable pub run_loop :
    DataNormalizer
    → List NormalizedTrade
    → List (Result NormalizedTrade)
    → Result (DataNormalizer × List NormalizedTrade)
unfolding process
run_loop c emitted [] = ok (c, emitted)
run_loop c emitted (raw ∷ raws) = do r ← process c raw; run_loop r.0 (emitted ++ r.1) raws

abbrev pub gather : DataNormalizer → List NormalizedTrade → NrmRun
gather c emitted = record {
  emitted = emitted;
  processed = c.processed;
  duplicates = c.duplicates;
  reordered = c.reordered;
  rejected = c.rejected;
}

unfoldable pub run : List (Result NormalizedTrade) → Bool → ℕ → ℕ → Result NrmRun
unfolding new_normalizer run_loop flush
run raws mapping window tolerance_ms = do
  c ← new_normalizer mapping window tolerance_ms
  r ← run_loop c [] raws
  ok (gather (flush r.0).0 (r.1 ++ (flush r.0).1))
