-- ===== src/StatusTracker/Returns.antt =====
-- The tracker of rust/processor/src/gap_detector.rs does not stop by itself.
use aptos_indexer_processors.Prelude.{
  ℕ, ◌≡◌, refl, inl, inr, Option, none, some, done, List, [], ◌∷◌, map, Bool, true, false, Has,
  Text, Option-cases,
}
use aptos_indexer_processors.Prelude.Int.{ℤ}
use aptos_indexer_processors.Protos.{Timestamp}
use aptos_indexer_processors.Util.Timestamp.{parse_timestamp}
use aptos_indexer_processors.GapDetector.{
  ProcessingResult, GapDetector, GapDetectorResult, new, process_versions, run,
}
use aptos_indexer_processors.GapDetector.Carried.{Carried, new-Carried, process_versions-Carried}
use aptos_indexer_processors.Database.{effective_clause}
use aptos_indexer_processors.StatusTracker.{
  ProcessorStatus, latest_only, StatusTable, status_timestamp, status_of,
  update_last_processed_version, update_status, track, track_all,
  create_gap_detector_status_tracker_loop,
}

module _ {D Db : Type 0} (from_timestamp_opt : ℤ → ℕ → Option D) (table : StatusTable D Db)
    (name : Text)
    (executes : (status : ProcessorStatus D) (clause : Option Text) (db : Db)
      → (db' : Db) × (table.execute status clause db ≡ some db')) where
  -- The timestamp of the result, if it has one, parses.
  abbrev pub Parses : ProcessingResult → Type 0
  Parses r =
      (t : Timestamp)
      → r.last_transaction_timestamp ≡ some t
      → (d : D) × (parse_timestamp from_timestamp_opt t ≡ done d)

  timestamp_returns :
      (t : Option Timestamp)
      → ((t' : Timestamp)
          → t ≡ some t'
          → (d : D) × (parse_timestamp from_timestamp_opt t' ≡ done d))
      → (d : Option D) × (status_timestamp from_timestamp_opt table name t ≡ done d)
  unfolding status_timestamp
  timestamp_returns none parses = (none, refl)
  timestamp_returns (some t) parses = let (d, e) = parses t refl in (some d, rw e refl)

  update_returns :
      (batch : ProcessingResult) (db : Db)
      → Parses batch
      → (db' : Db) × (update_last_processed_version from_timestamp_opt table name batch.end_version
            batch.last_transaction_timestamp db
          ≡ done db')
  unfolding update_last_processed_version
  update_returns batch db parses =
      let (d, e) = timestamp_returns batch.last_transaction_timestamp parses in
      let status = status_of from_timestamp_opt table name batch.end_version d in
      let (db', e') =
        executes status (effective_clause (table.debug_query status) (some latest_only)) db in
      (db', rw e (rw e' refl))

  status_returns :
      (res : GapDetectorResult) (due : Bool) (db : Db)
      → ((b : ProcessingResult) → res.last_success_batch ≡ some b → Parses b)
      → (db' : Db) × (update_status from_timestamp_opt table name res due db ≡ done db')
  unfolding update_status
  status_returns res due db parses = elim (Option-cases res.last_success_batch) [
    | inl e ↦ (db, rw (e, update_status) refl)
    | inr (batch, e) ↦ due_or_not due batch e
  ]
    where
      due_or_not :
          (due : Bool) (batch : ProcessingResult)
          → res.last_success_batch ≡ some batch
          → (db' : Db) × (update_status from_timestamp_opt table name res due db ≡ done db')
      due_or_not true batch e =
          let (db', e') = update_returns batch db (parses batch e) in
          (db', rw (e, update_status) e')
      due_or_not false batch e = (db, rw (e, update_status) refl)

  track_all_returns :
      (g : GapDetector) (db : Db) (rs : List (ProcessingResult × Bool))
      → Carried Parses g
      → ((r : ProcessingResult × Bool) → Has r rs → Parses r.0)
      → (db' : Db) × (track_all from_timestamp_opt table name (g, db) rs
          ≡ done (run g (map (λ p. p.0) rs), db'))
  unfolding track_all track run process_versions
  track_all_returns g db [] carried parses = (db, refl)
  track_all_returns g db ((r, due) ∷ rs) carried parses =
      let next = process_versions-Carried Parses g r carried (parses (r, due) (inl refl)) in
      let (db1, e) = status_returns (process_versions g r).1 due db next.last in
      let (db2, e2) =
        track_all_returns (process_versions g r).0 db1 rs next (λ q m. parses q (inr m)) in
      (db2, rw e e2)

  -- Where every upsert is executed and the timestamps of the results parse, the tracker does not panic, and its
  -- detector has taken in all results in their order.
  pub tracker_returns :
      (start : ℕ) (db : Db) (results : List (ProcessingResult × Bool))
      → ((r : ProcessingResult × Bool) → Has r results → Parses r.0)
      → (db' : Db) × (create_gap_detector_status_tracker_loop from_timestamp_opt table name start db
            results
          ≡ done (run (new start) (map (λ p. p.0) results), db'))
  unfolding create_gap_detector_status_tracker_loop
  tracker_returns start db results parses =
      track_all_returns (new start) db results (new-Carried Parses start) parses
