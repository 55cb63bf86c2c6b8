-- ===== src/StatusTracker/Restart.antt =====
-- A restart of the processor goes on where every version before has been processed: the tracker of
-- rust/processor/src/gap_detector.rs and `get_start_version` of rust/processor/src/worker.rs.
use aptos_indexer_processors.Prelude.{
  ℕ, ◌+◌, ◌^◌, ◌≤◌, ◌<◌, ◌≡◌, ◌∙◌, ◌⊎◌, refl, sym, ap, inl, inr, Option, none, some, done, panic,
  done-injective, >>=-eq-done, List, [], ◌∷◌, map, arith, Bool, true, false, Has, Text,
  Option-cases, lt_or_le, u64, if◌then◌else◌,
}
use aptos_indexer_processors.Prelude.Int.{ℤ, pos, leb_ℤ}
use aptos_indexer_processors.GapDetector.{
  ProcessingResult, GapDetector, GapDetectorResult, new, process_versions, run, IsBatch,
}
use aptos_indexer_processors.GapDetector.Coverage.{Covered, Inv, run-Inv, new-Inv}
use aptos_indexer_processors.Database.{effective_clause}
use aptos_indexer_processors.StatusTracker.{
  as_u64, ProcessorStatus, latest_only, upserted, StatusTable, status_timestamp, status_of,
  update_last_processed_version, update_status, track, track_all,
  create_gap_detector_status_tracker_loop, get_start_version, starting_version,
}

module _ {D : Type 0} where
  abbrev pub start_of_row : Option (ProcessorStatus D) → ℕ
  start_of_row none = 0
  start_of_row (some status) = u64 (as_u64 status.last_success_version + 1)

  -- The stored version is one that an `i64` holds and can count on from.
  abbrev pub RowInRange : Option (ProcessorStatus D) → Type 0
  RowInRange none = Unit
  RowInRange (some status) = (n : ℕ) × (status.last_success_version ≡ pos n) × (n + 1 < 2 ^ 63)

  start_of_pos :
      (status : ProcessorStatus D) (n : ℕ)
      → status.last_success_version ≡ pos n
      → n + 1 < 2 ^ 63
      → start_of_row (some status) ≡ n + 1
  start_of_pos status n e fits = rw e (omega arith)

  upserted_row :
      (row : Option (ProcessorStatus D)) (status : ProcessorStatus D) (e : ℕ)
      → RowInRange row
      → status.last_success_version ≡ pos e
      → e + 1 < 2 ^ 63
      → let row' = some (upserted (some latest_only) row status) in
        RowInRange row'
        × (start_of_row row ≤ start_of_row row')
        × ((start_of_row row' ≡ start_of_row row) ⊎ (start_of_row row' ≡ e + 1))
  unfolding upserted
  upserted_row none status e ok at fits =
      ((e, at, fits), omega arith, inr (start_of_pos status e at fits))
  upserted_row (some old) status e (n, old_at, old_fits) at fits =
      let before = start_of_pos old n old_at old_fits in
      let after = start_of_pos status e at fits in
      elim (lt_or_le e n) [
        | inl newer ↦
            let keep : leb_ℤ old.last_success_version status.last_success_version ≡ false =
              rw (old_at, at) (ground arith) in
            rw keep ((n, old_at, old_fits), omega arith, inl refl)
        | inr older ↦
            let take : leb_ℤ old.last_success_version status.last_success_version ≡ true =
              rw (old_at, at) (ground arith) in
            rw take ((e, at, fits), omega (arith, before, after), inr after)
      ]

Covered-small :
    (v : ℕ) (all : List ProcessingResult)
    → ((r : ProcessingResult) → Has r all → r.end_version + 1 < 2 ^ 63)
    → Covered v all
    → v + 1 < 2 ^ 63
Covered-small v [] small h = absurd h
Covered-small v (x ∷ all) small (inl h) = omega (arith, small x (inl refl), h.1)
Covered-small v (x ∷ all) small (inr h) = Covered-small v all (λ r m. small r (inr m)) h

-- What the code relies on in the database: an upsert leaves the row as its where clause says, and the
-- text of the upsert of a status names no clause.
pub record StatusLaws {D Db : Type 0} (table : StatusTable D Db) (name : Text) : Type 0 where
  pub stores :
      (status : ProcessorStatus D) (clause : Option Text) (db db' : Db)
      → status.processor ≡ name
      → table.execute status clause db ≡ some db'
      → table.get_by_processor name db'
        ≡ some (upserted clause (table.get_by_processor name db) status)
  pub no_clause :
      (status : ProcessorStatus D)
      → status.processor ≡ name
      → effective_clause (table.debug_query status) (some latest_only) ≡ some latest_only

executed :
    {Db : Type 0} (answer : Option Db) (db' : Db)
    → (elim answer [ some db'' ↦ done db'' | none ↦ panic ]) ≡ done db'
    → answer ≡ some db'
executed none db' e = cc
executed (some x) db' e = ap some (done-injective e)

module _ {D Db : Type 0} (from_timestamp_opt : ℤ → ℕ → Option D) (table : StatusTable D Db)
    (name : Text) (laws : StatusLaws table name) (start : ℕ) (start_small : start < 2 ^ 63)
    (all : List ProcessingResult) (batches : (r : ProcessingResult) → Has r all → IsBatch r)
    (small : (r : ProcessingResult) → Has r all → r.end_version + 1 < 2 ^ 63) where
  abbrev row_of : Db → Option (ProcessorStatus D)
  row_of db = table.get_by_processor name db

  starting_version_row :
      (db : Db) → starting_version from_timestamp_opt table name none db ≡ start_of_row (row_of db)
  unfolding starting_version get_start_version
  starting_version_row db = elim (Option-cases (table.get_by_processor name db)) [
    | inl e ↦ rw (e, starting_version, get_start_version) refl
    | inr (status, e) ↦ rw (e, starting_version, get_start_version) refl
  ]

  -- The row has not gone back, and where it has moved every version below it is covered.
  record Good (from : ℕ) (row : Option (ProcessorStatus D)) : Type 0 where
    in_range : RowInRange row
    not_back : from ≤ start_of_row row
    moved : (start_of_row row ≡ from) ⊎ ((v : ℕ) → start ≤ v → v < start_of_row row → Covered v all)

  below_small :
      (g : GapDetector) (batch : ProcessingResult)
      → Inv start all g
      → g.next_version_to_process ≡ batch.end_version + 1
      → batch.end_version + 1 < 2 ^ 63
  below_small g batch inv meets = elim (lt_or_le batch.end_version start) [
    | inl before ↦ omega (arith, start_small, inv.from_start, meets)
    | inr from ↦
        Covered-small batch.end_version all small (inv.covered batch.end_version from (omega arith))
  ]

  stored_Good :
      (from : ℕ) (row : Option (ProcessorStatus D)) (status : ProcessorStatus D) (e : ℕ)
      → Good from row
      → status.last_success_version ≡ pos e
      → e + 1 < 2 ^ 63
      → ((v : ℕ) → start ≤ v → v < e + 1 → Covered v all)
      → Good from (some (upserted (some latest_only) row status))
  stored_Good from row status e good at fits covered =
      let (in_range, le, next) = upserted_row row status e good.in_range at fits in
      record {
        in_range = in_range;
        not_back = omega (arith, le, good.not_back);
        moved = elim next [ inl same ↦ rw same good.moved | inr moved ↦ rw moved (inr covered) ];
      }

  update-Good :
      (from : ℕ) (g : GapDetector) (batch : ProcessingResult) (db db' : Db)
      → Inv start all g
      → g.last_success_batch ≡ some batch
      → Good from (row_of db)
      → update_last_processed_version from_timestamp_opt table name batch.end_version
          batch.last_transaction_timestamp db
        ≡ done db'
      → Good from (row_of db')
  unfolding update_last_processed_version status_of
  update-Good from g batch db db' inv last good e =
      let (timestamp, _, e1) =
        >>=-eq-done
          (status_timestamp from_timestamp_opt table name batch.last_transaction_timestamp) _ e in
      let status = status_of from_timestamp_opt table name batch.end_version timestamp in
      let meets : g.next_version_to_process ≡ batch.end_version + 1 = rw last at inv.last_meets in
      let fits : batch.end_version + 1 < 2 ^ 63 = below_small g batch inv meets in
      let at : status.last_success_version ≡ pos batch.end_version = ground arith in
      let ran =
        executed
          (table.execute status (effective_clause (table.debug_query status) (some latest_only)) db)
          db' e1 in
      let clause = laws.no_clause status refl in
      let row = laws.stores status (some latest_only) db db' refl (rw clause at ran) in
      rw row (
        stored_Good from (row_of db) status batch.end_version good at fits
          (λ v lo hi. inv.covered v lo (omega (arith, meets))))

  update_status-Good :
      (from : ℕ) (g : GapDetector) (res : GapDetectorResult) (due : Bool) (db db' : Db)
      → Inv start all g
      → res.last_success_batch ≡ g.last_success_batch
      → Good from (row_of db)
      → update_status from_timestamp_opt table name res due db ≡ done db'
      → Good from (row_of db')
  unfolding update_status
  update_status-Good from g res due db db' inv same good e =
      elim (Option-cases res.last_success_batch) [
        | inl none_ ↦
            let kept : done db ≡ done db' = rw (none_, update_status) at e in
            rw (← done-injective kept) good
        | inr (batch, last) ↦ due_or_not due batch last (rw (last, update_status) at e)
      ]
    where
      due_or_not :
          (due : Bool) (batch : ProcessingResult)
          → res.last_success_batch ≡ some batch
          → (if due
              then update_last_processed_version from_timestamp_opt table name batch.end_version
                  batch.last_transaction_timestamp db
              else done db)
            ≡ done db'
          → Good from (row_of db')
      due_or_not true batch last e = update-Good from g batch db db' inv (sym same ∙ last) good e
      due_or_not false batch last e = rw (← done-injective e) good

  track-Good :
      (from : ℕ) (g : GapDetector) (db : Db) (r : ProcessingResult) (due : Bool)
      (s' : GapDetector × Db)
      → Has r all
      → Inv start all g
      → Good from (row_of db)
      → track from_timestamp_opt table name (g, db) (r, due) ≡ done s'
      → Inv start all s'.0 × Good from (row_of s'.1)
  unfolding track run process_versions
  track-Good from g db r due s' has inv good e =
      let next = (process_versions g r).0 in
      let inv' : Inv start all next =
        run-Inv start all batches g (r ∷ []) inv
          (λ q m. elim m [ inl e ↦ rw e has | inr x ↦ absurd x ]) in
      let (db', e1, e2) =
        >>=-eq-done (update_status from_timestamp_opt table name (process_versions g r).1 due db) _
          e in
      let same : (next, db') ≡ s' = done-injective e2 in
      rw (← same)
        (inv', update_status-Good from next (process_versions g r).1 due db db' inv' refl good e1)

  track_all-Good :
      (from : ℕ) (s s' : GapDetector × Db) (rs : List (ProcessingResult × Bool))
      → ((r : ProcessingResult × Bool) → Has r rs → Has r.0 all)
      → Inv start all s.0
      → Good from (row_of s.1)
      → track_all from_timestamp_opt table name s rs ≡ done s'
      → Good from (row_of s'.1)
  unfolding track_all
  track_all-Good from s s' [] has inv good e = rw (← ap (λ p. p.1) (done-injective e)) good
  track_all-Good from (g, db) s' ((r, due) ∷ rs) has inv good e =
      let (s1, e1, e2) = >>=-eq-done (track from_timestamp_opt table name (g, db) (r, due)) _ e in
      let (inv1, good1) = track-Good from g db r due s1 (has (r, due) (inl refl)) inv good e1 in
      track_all-Good from s1 s' rs (λ q m. has q (inr m)) inv1 good1 e2

Has-map :
    (rs : List (ProcessingResult × Bool)) (r : ProcessingResult × Bool)
    → Has r rs
    → Has r.0 (map (λ p. p.0) rs)
Has-map [] r m = m
Has-map (x ∷ rs) r (inl e) = inl (ap (λ p. p.0) e)
Has-map (x ∷ rs) r (inr m) = inr (Has-map rs r m)

-- A row in range, and results whose version ranges are in range, in any order, with the updates due at
-- any of them: when the tracker has not panicked, the version from which the database lets the
-- processor start again has not gone back, and it is the old one, or every version from the one where the
-- tracker began up to it lies in a result that was received.
pub restart_covers :
    {D Db : Type 0} (from_timestamp_opt : ℤ → ℕ → Option D) (table : StatusTable D Db) (name : Text)
    (start : ℕ) (db : Db) (results : List (ProcessingResult × Bool)) (g : GapDetector) (db' : Db)
    → StatusLaws table name
    → start < 2 ^ 63
    → RowInRange (table.get_by_processor name db)
    → ((r : ProcessingResult)
        → Has r (map (λ p. p.0) results)
        → IsBatch r × (r.end_version + 1 < 2 ^ 63))
    → create_gap_detector_status_tracker_loop from_timestamp_opt table name start db results
      ≡ done (g, db')
    → let before = starting_version from_timestamp_opt table name none db in
      let after = starting_version from_timestamp_opt table name none db' in
      (before ≤ after)
      × ((after ≡ before) ⊎ ((v : ℕ) → start ≤ v → v < after → Covered v (map (λ p. p.0) results)))
unfolding create_gap_detector_status_tracker_loop
restart_covers from_timestamp_opt table name start db results g db' laws small_start row ok e =
    let all = map (λ p. p.0) results in
    let from = start_of_row (table.get_by_processor name db) in
    let batches : (r : ProcessingResult) → Has r all → IsBatch r = λ r m. (ok r m).0 in
    let small : (r : ProcessingResult) → Has r all → r.end_version + 1 < 2 ^ 63 =
      λ r m. (ok r m).1 in
    let first : Good from_timestamp_opt table name laws start small_start all batches small from
        (table.get_by_processor name db) =
      record { in_range = row; not_back = omega arith; moved = inl refl } in
    let last =
      track_all-Good from_timestamp_opt table name laws start small_start all batches small from
        (new start, db) (g, db') results (Has-map results) (new-Inv start all) first e in
    rw
      (starting_version_row from_timestamp_opt table name laws start small_start all batches small
        db)
      (rw
        (starting_version_row from_timestamp_opt table name laws start small_start all batches small
          db')
        (last.not_back, last.moved))
