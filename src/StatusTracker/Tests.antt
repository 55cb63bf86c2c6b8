-- ===== src/StatusTracker/Tests.antt =====
-- A table of one row, the tracker's run over two batches that arrive out of order, and the theorem there.
use aptos_indexer_processors.Prelude.{
  ℕ, ◌≤◌, ◌<◌, ◌≡◌, ◌⊎◌, refl, Option, none, some, done, List, [], ◌∷◌, map, arith, Bool, true,
  Text, bytes,
}
use aptos_indexer_processors.Prelude.Int.{ℤ, pos}
use aptos_indexer_processors.GapDetector.{
  ProcessingResult, GapDetector, new, process_versions, advance, update_prev_batch, drain, run,
}
use aptos_indexer_processors.GapDetector.Coverage.{Covered}
use aptos_indexer_processors.Prelude.Dict.{lookup, insert, remove}
use aptos_indexer_processors.Database.{effective_clause, contains, to_lowercase, starts_with}
use aptos_indexer_processors.StatusTracker.{
  ProcessorStatus, StatusTable, upserted, create_gap_detector_status_tracker_loop, track_all, track,
  update_status, update_last_processed_version, status_timestamp, status_of, starting_version,
}
use aptos_indexer_processors.Util.Timestamp.{as_u32, clamp, parse_timestamp}
use aptos_indexer_processors.StatusTracker.Returns.{tracker_returns}
use aptos_indexer_processors.StatusTracker.Restart.{StatusLaws, restart_covers}

abbrev Row : Type 0
Row = Option (ProcessorStatus ℕ)

abbrev one_row : StatusTable ℕ Row
one_row = record {
  get_by_processor = λ name row. row;
  debug_query = λ status. [];
  execute = λ status clause row. some (some (upserted clause row status));
}

abbrev name : Text
name = bytes "events_processor"

one_row-laws : StatusLaws one_row name
unfolding effective_clause contains to_lowercase starts_with
one_row-laws = record { stores = λ status clause db db' e ran. cc; no_clause = λ status e. refl }

abbrev no_clock : ℤ → ℕ → Option ℕ
no_clock s n = none

abbrev batch : ℕ → ℕ → ProcessingResult
batch s e = record { start_version = s; end_version = e; last_transaction_timestamp = none }

abbrev results : List (ProcessingResult × Bool)
results = (batch 10 19, true) ∷ (batch 0 9, true) ∷ (batch 30 39, true) ∷ []

abbrev last_g : GapDetector
last_g = record {
  next_version_to_process = 20;
  seen_versions = (30, batch 30 39) ∷ [];
  last_success_batch = some (batch 10 19);
}

abbrev last_row : Row
last_row =
    some (record {
      processor = name;
      last_success_version = pos 19;
      last_transaction_timestamp = none;
    })

tracker_run :
    create_gap_detector_status_tracker_loop no_clock one_row name 0 none results
    ≡ done (last_g, last_row)
unfolding create_gap_detector_status_tracker_loop track_all track update_status
    update_last_processed_version status_timestamp status_of upserted effective_clause contains
    to_lowercase starts_with new process_versions advance update_prev_batch drain lookup insert
    remove
tracker_run = refl

restart_covers_example :
    let before = starting_version no_clock one_row name none none in
    let after = starting_version no_clock one_row name none last_row in
    (before ≤ after)
    × ((after ≡ before) ⊎ ((v : ℕ) → 0 ≤ v → v < after → Covered v (map (λ p. p.0) results)))
restart_covers_example =
    restart_covers no_clock one_row name 0 none results last_g last_row one_row-laws (omega arith)
      tt (λ r m. (ground arith, ground arith)) tracker_run

-- A clock that keeps the nanoseconds.
abbrev nanos_clock : ℤ → ℕ → Option ℕ
nanos_clock s n = some n

tracker_returns_example :
    (row : Row) × (create_gap_detector_status_tracker_loop nanos_clock one_row name 0 none results
      ≡ done (run (new 0) (map (λ p. p.0) results), row))
unfolding parse_timestamp
tracker_returns_example =
    tracker_returns nanos_clock one_row name
      (λ status clause row. (some (upserted clause row status), refl)) 0 none results
      (λ r m t e. (as_u32 (clamp t).nanos, refl))
