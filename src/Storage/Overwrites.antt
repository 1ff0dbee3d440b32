-- ===== src/Storage/Overwrites.antt =====
-- Trades and signals share their partitions, and so their files.
use deltaengine.Prelude.{
  ℕ, ◌≤◌, List, [], none, some, true, false, ◌==◌, nat_eq, Dict, lookup, lookup_or, length, ◌≡◌,
  refl, sym, ap, ◌∙◌, inl, inr, Option-cases, arith,
}
use deltaengine.Storage.{
  trades, signals, flow_response_events, flow_response_outcomes, Row, Directory, directory_eq,
  file_eq, Backend, StorageWriter, directory_of, groups_of, flush,
}
use deltaengine.Storage.Partitions.{rows_in, IsSound, file, lookup-groups_of, lookup_or-groups_of}
use deltaengine.Storage.Flushes.{group, flush-IsFlushed}

same_directory : (q : Row) → directory_of trades q ≡ directory_of signals q
unfolding directory_of
same_directory q = refl

events_apart : (q r : Row) → (directory_of flow_response_events r == directory_of signals q) ≡ false
unfolding directory_of
events_apart q r = refl

outcomes_apart :
    (q r : Row) → (directory_of flow_response_outcomes r == directory_of signals q) ≡ false
unfolding directory_of
outcomes_apart q r = refl

-- A group with rows is there.
some_group :
    (d : Directory) (groups : Dict Directory (List Row)) (rows : List Row)
    → lookup_or d [] groups ≡ rows
    → 1 ≤ length rows
    → lookup d groups ≡ some rows
some_group d groups rows e full = elim (Option-cases (lookup d groups)) [
  | inl absent ↦
      (let nothing : rows ≡ [] = sym e ∙ rw (lookup_or, absent) refl in
        absurd (omega (arith, rw nothing at full)))
  | inr (v, there) ↦
      (let same : v ≡ rows = sym (rw (lookup_or, there) refl) ∙ e in there ∙ ap some same)
]

-- Where neither Parquet nor DuckDB fails, a flush with signals of a symbol and a day leaves in the file
-- of this flush for that partition those signals alone: the trades of the same symbol and day, which
-- the same flush has written to the same file just before, are gone from it.
pub flush_overwrites :
    (b : Backend) (now : ℕ) (s : StorageWriter) (q : Row)
    → IsSound b
    → 1 ≤ length (rows_in signals (directory_of signals q) (s.buffers signals))
    → (directory_of trades q ≡ directory_of signals q)
      × (lookup (file (directory_of trades q) s.seq) (flush b now s).0.disk
          ≡ some (rows_in signals (directory_of signals q) (s.buffers signals)))
flush_overwrites b now s q sound full =
    let d = directory_of signals q in
    let rows = rows_in signals d (s.buffers signals) in
    let f = flush-IsFlushed b now s sound in
    let self : (s.seq == s.seq) ≡ true = ground arith in
    let present : group signals d s ≡ some rows =
      some_group d (groups_of signals [] (s.buffers signals)) rows
        (lookup_or-groups_of signals d [] (s.buffers signals)) full in
    let no_events : group flow_response_events d s ≡ none =
      lookup-groups_of flow_response_events d [] (s.buffers flow_response_events)
        (events_apart q) in
    let no_outcomes : group flow_response_outcomes d s ≡ none =
      lookup-groups_of flow_response_outcomes d [] (s.buffers flow_response_outcomes)
        (outcomes_apart q) in
    (
      same_directory q,
      rw (same_directory q) (f.files d s.seq ∙ rw (self, no_outcomes, no_events, present) refl),
    )
