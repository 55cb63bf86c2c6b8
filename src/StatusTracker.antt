-- ===== src/StatusTracker.antt =====
-- How progress reaches the database and comes back: `create_gap_detector_status_tracker_loop`
-- (rust/processor/src/gap_detector.rs), `update_last_processed_version`
-- (rust/processor/src/processors/mod.rs), and `get_start_version` with its use in `run`
-- (rust/processor/src/worker.rs). The table `processor_status` is a parameter.
pub mod Restart
pub mod Returns
mod Tests
use aptos_indexer_processors.Prelude.{
  ℕ, suc, ◌+◌, ◌-◌, ◌≡◌, Option, none, some, Outcome, done, panic, ◌>>=◌, List, [], ◌∷◌, ◌++◌, Bool,
  true, false, leb, u64, u64_mod, if◌then◌else◌, Text, bytes,
}
use aptos_indexer_processors.Prelude.Int.{ℤ, pos, negsuc, leb_ℤ}
use aptos_indexer_processors.Protos.{Timestamp}
use aptos_indexer_processors.Util.Timestamp.{parse_timestamp}
use aptos_indexer_processors.GrpcStream.Response.{as_i64}
use aptos_indexer_processors.GapDetector.{
  ProcessingResult, GapDetector, GapDetectorResult, new, process_versions,
}
use aptos_indexer_processors.Database.{effective_clause}

-- `v as u64` of an `i64`.
abbrev pub as_u64 : ℤ → ℕ
as_u64 (pos n) = n
as_u64 (negsuc n) = u64_mod - suc n

pub record ProcessorStatus (NaiveDateTime : Type 0) : Type 0 where
  pub processor : Text
  pub last_success_version : ℤ
  pub last_transaction_timestamp : Option NaiveDateTime

abbrev pub latest_only : Text
latest_only = bytes " WHERE processor_status.last_success_version <= EXCLUDED.last_success_version "

-- The row that an upsert with this clause leaves: the new one, but for an older version under the clause.
pub upserted :
    {D : Type 0} → Option Text → Option (ProcessorStatus D) → ProcessorStatus D → ProcessorStatus D
upserted clause none status = status
upserted none (some old) status = status
upserted (some clause) (some old) status =
    if leb_ℤ old.last_success_version status.last_success_version then status else old

-- The table: the row of a processor, the text of the upsert with its bound values, and its execution
-- with a where clause, none where the database reports an error.
pub record StatusTable (D Db : Type 0) : Type 0 where
  pub get_by_processor : Text → Db → Option (ProcessorStatus D)
  pub debug_query : ProcessorStatus D → Text
  pub execute : ProcessorStatus D → Option Text → Db → Option Db

module _ {D Db : Type 0} (from_timestamp_opt : ℤ → ℕ → Option D) (table : StatusTable D Db)
    (name : Text) where
  pub status_timestamp : Option Timestamp → Outcome (Option D)
  status_timestamp none = done none
  status_timestamp (some t) = do d ← parse_timestamp from_timestamp_opt t; done (some d)

  pub status_of : ℕ → Option D → ProcessorStatus D
  status_of version timestamp = record {
    processor = name;
    last_success_version = as_i64 version;
    last_transaction_timestamp = timestamp;
  }

  -- The database after the update, with the `unwrap` of the tracker: an error panics.
  pub update_last_processed_version : ℕ → Option Timestamp → Db → Outcome Db
  unfolding status_timestamp status_of effective_clause
  update_last_processed_version version last_transaction_timestamp db = do
    timestamp ← status_timestamp last_transaction_timestamp
    let status = status_of version timestamp in
        elim (table.execute status (effective_clause (table.debug_query status) (some latest_only))
          db) [ some db' ↦ done db' | none ↦ panic ]

  -- The update for a result of the detector: where a batch has succeeded, and the second since the last
  -- update is over.
  pub update_status : GapDetectorResult → Bool → Db → Outcome Db
  unfolding update_last_processed_version
  update_status res due db = elim res.last_success_batch [
    | none ↦ done db
    | some batch ↦
        let updated =
          update_last_processed_version batch.end_version batch.last_transaction_timestamp db in
        if due then updated else done db
  ]

  -- One result from the channel, and whether an update is due.
  pub track : GapDetector × Db → ProcessingResult × Bool → Outcome (GapDetector × Db)
  unfolding update_status
  track (g, db) (result, due) = do
    db' ← update_status (process_versions g result).1 due db
    done ((process_versions g result).0, db')

  -- The loop until the channel is closed.
  pub track_all : GapDetector × Db → List (ProcessingResult × Bool) → Outcome (GapDetector × Db)
  unfolding track
  track_all s [] = done s
  track_all s (r ∷ rs) = do s' ← track s r; track_all s' rs

  pub create_gap_detector_status_tracker_loop :
      ℕ → Db → List (ProcessingResult × Bool) → Outcome (GapDetector × Db)
  unfolding track_all new
  create_gap_detector_status_tracker_loop starting_version db results =
      track_all (new starting_version, db) results

  pub get_start_version : Db → Option ℕ
  get_start_version db = elim (table.get_by_processor name db) [
    | some status ↦ some (u64 (as_u64 status.last_success_version + 1))
    | none ↦ none
  ]

  -- The version at which `run` starts: the configured one, or the one from the database, or 0.
  pub starting_version : Option ℕ → Db → ℕ
  unfolding get_start_version
  starting_version (some configured) db = configured
  starting_version none db = elim (get_start_version db) [ some v ↦ v | none ↦ 0 ]
