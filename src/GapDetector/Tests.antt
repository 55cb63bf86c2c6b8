-- ===== src/GapDetector/Tests.antt =====
-- Runs of the detector, with the scenario of `detect_gap_test` in rust/processor/src/gap_detector.rs in
-- small, and the theorems at concrete results.
use aptos_indexer_processors.Prelude.{ℕ, ◌≤◌, ◌≡◌, refl, none, List, [], ◌∷◌, arith, length, Has}
use aptos_indexer_processors.Prelude.Dict.{lookup, insert, remove}
use aptos_indexer_processors.GapDetector.{
  ProcessingResult, new, drain, update_prev_batch, advance, process_versions, run, IsBatch,
}
use aptos_indexer_processors.GapDetector.Coverage.{Inv, reported_versions_covered}
use aptos_indexer_processors.GapDetector.Order.{any_order}
use aptos_indexer_processors.GapDetector.Stale.{late_result_never_clears}

abbrev batch : ℕ → ℕ → ProcessingResult
batch s e = record { start_version = s; end_version = e; last_transaction_timestamp = none }

abbrev arrivals : List ProcessingResult
arrivals = batch 100 199 ∷ batch 200 299 ∷ batch 0 99 ∷ []

abbrev plan : List ProcessingResult
plan = batch 0 99 ∷ batch 100 199 ∷ batch 200 299 ∷ []

gaps_then_none :
    let g = run (new 0) (batch 100 199 ∷ batch 200 299 ∷ []) in
    let g' = (process_versions g (batch 0 99)).1 in
    (length g.seen_versions ≡ 2)
    × (g.next_version_to_process ≡ 0)
    × (g'.num_gaps ≡ 0)
    × (g'.next_version_to_process ≡ 300)
unfolding run process_versions advance update_prev_batch drain new lookup insert remove
gaps_then_none = (refl, refl, refl, refl)

arrivals-IsBatch : (r : ProcessingResult) → Has r arrivals → IsBatch r
arrivals-IsBatch r m = ground arith

reported_versions_covered_example : Inv 0 arrivals (run (new 0) arrivals)
reported_versions_covered_example = reported_versions_covered 0 arrivals arrivals-IsBatch

any_order_example :
    ((run (new 0) arrivals).next_version_to_process ≡ 300)
    × (length (run (new 0) arrivals).seen_versions ≡ 0)
any_order_example =
    any_order 0 300 plan (omega arith) (omega arith) arrivals
      (λ r. (λ m. ground arith, λ m. ground arith))
      (λ m. ground arith, (λ m. ground arith, (λ m. ground arith, tt)))

late_result_never_clears_example :
    1 ≤ length (run (new 0) (batch 0 99 ∷ batch 0 99 ∷ batch 100 199 ∷ [])).seen_versions
unfolding run process_versions advance update_prev_batch drain new lookup insert remove
late_result_never_clears_example =
    late_result_never_clears 0 (batch 0 99 ∷ []) (batch 100 199 ∷ []) (batch 0 99)
      (λ r m. ground arith) (omega arith) (λ r m. ground arith) (omega arith)
