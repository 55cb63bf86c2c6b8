-- ===== src/GapDetector.antt =====
-- rust/processor/src/gap_detector.rs, and `ProcessingResult` of rust/processor/src/processors/mod.rs.
-- The two durations of a result only feed metrics and are left out. Versions are `u64` and wrap.
pub mod Drain
pub mod Coverage
pub mod Carried
pub mod Plan
mod Sync
pub mod Order
pub mod Stale
mod Tests
use aptos_indexer_processors.Prelude.{
  ℕ, zero, suc, ◌+◌, Option, none, some, List, [], ◌∷◌, length, u64, ◌==◌, nat_eq, if◌then◌else◌,
  ◌≤◌, ◌<◌, u64_mod,
}
use aptos_indexer_processors.Prelude.Dict.{Dict, lookup, insert, remove}
use aptos_indexer_processors.Protos.{Timestamp}

pub record ProcessingResult : Type 0 where
  pub start_version : ℕ
  pub end_version : ℕ
  pub last_transaction_timestamp : Option Timestamp

pub record GapDetector : Type 0 where
  pub next_version_to_process : ℕ
  pub seen_versions : Dict ℕ ProcessingResult
  pub last_success_batch : Option ProcessingResult

pub record GapDetectorResult : Type 0 where
  pub next_version_to_process : ℕ
  pub num_gaps : ℕ
  pub last_success_batch : Option ProcessingResult

unfoldable pub new : ℕ → GapDetector
new starting_version = record {
  next_version_to_process = starting_version;
  seen_versions = [];
  last_success_batch = none;
}

-- The first version after a batch.
abbrev pub next_version : ProcessingResult → ℕ
next_version r = u64 (r.end_version + 1)

-- The `while let` of `update_prev_batch`. Each round removes an entry of the map, so the map's length
-- is fuel enough.
unfoldable pub drain :
    ℕ → Dict ℕ ProcessingResult → ProcessingResult → Dict ℕ ProcessingResult × ProcessingResult
drain zero seen batch = (seen, batch)
drain (suc fuel) seen batch = elim (lookup (next_version batch) seen) [
  | none ↦ (seen, batch)
  | some following ↦ drain fuel (remove (next_version batch) seen) following
]

unfoldable pub update_prev_batch : GapDetector → ProcessingResult → GapDetector
update_prev_batch g result =
    let (seen, batch) = drain (length g.seen_versions) g.seen_versions result in
    record {
      next_version_to_process = next_version batch;
      seen_versions = seen;
      last_success_batch = some batch;
    }

-- The state after `process_versions`.
unfoldable pub advance : GapDetector → ProcessingResult → GapDetector
advance g result =
    if g.next_version_to_process == result.start_version
    then update_prev_batch g result
    else record g { seen_versions = insert result.start_version result g.seen_versions }

unfoldable pub process_versions : GapDetector → ProcessingResult → GapDetector × GapDetectorResult
process_versions g result =
    let g' = advance g result in
    (
      g',
      record {
        next_version_to_process = g'.next_version_to_process;
        num_gaps = length g'.seen_versions;
        last_success_batch = g'.last_success_batch;
      },
    )

-- The detector after the results of a channel, in the order of their arrival.
unfoldable pub run : GapDetector → List ProcessingResult → GapDetector
run g [] = g
run g (r ∷ rs) = run (process_versions g r).0 rs

-- What the processors return: a range of versions that a `u64` can step over.
abbrev pub IsBatch : ProcessingResult → Type 0
IsBatch r = (r.start_version ≤ r.end_version) × (r.end_version + 1 < u64_mod)
