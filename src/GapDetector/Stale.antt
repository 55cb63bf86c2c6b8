-- ===== src/GapDetector/Stale.antt =====
-- A result that starts below the next version of rust/processor/src/gap_detector.rs, such as the
-- second chunk of a response that rust/processor/src/grpc_stream.rs has split.
use aptos_indexer_processors.Prelude.{
  ℕ, ◌+◌, ◌≤◌, ◌<◌, ◌≡◌, ◌≢◌, refl, inl, inr, none, some, List, [], ◌∷◌, ◌++◌, arith, length, Has,
  nat_eq, eq_or_ne,
}
use aptos_indexer_processors.Prelude.Dict.{
  Dict, lookup, remove, lookup-insert, lookup-insert_cases, lookup-insert_self, lookup-remove,
  lookup-pos,
}
use aptos_indexer_processors.GapDetector.{
  ProcessingResult, GapDetector, new, next_version, update_prev_batch, advance, process_versions,
  run, IsBatch,
}
use aptos_indexer_processors.GapDetector.Drain.{drain_inv, advance_next, advance_gap}
use aptos_indexer_processors.GapDetector.Coverage.{reported_versions_covered}

abbrev Stored : Dict ℕ ProcessingResult → Type 0
Stored seen =
    (k : ℕ) (r : ProcessingResult) → lookup k seen ≡ some r → (r.start_version ≡ k) × IsBatch r

module _ (late : ℕ) where
  -- An entry of the map lies below the next version.
  record Stuck (next : ℕ) (seen : Dict ℕ ProcessingResult) : Type 0 where
    stored : Stored seen
    held : lookup late seen ≢ none
    below : late < next

  record Loop (seen : Dict ℕ ProcessingResult) (b : ProcessingResult) : Type 0 where
    stuck : Stuck (b.end_version + 1) seen
    is_batch : IsBatch b

  keep :
      (seen : Dict ℕ ProcessingResult) (b n : ProcessingResult)
      → Loop seen b
      → lookup (next_version b) seen ≡ some n
      → Loop (remove (next_version b) seen) n
  keep seen b n h found =
      let (at, ok) = h.stuck.stored (next_version b) n found in
      record {
        stuck = record {
          stored =
              λ k r e. h.stuck.stored k r (ground (arith, lookup-remove (next_version b) k seen));
          held = ground (
            arith,
            lookup-remove (next_version b) late seen,
            h.stuck.held,
            h.stuck.below,
            h.is_batch,
          );
          below = omega (arith, h.stuck.below, h.is_batch);
        };
        is_batch = ok;
      }

  update-Stuck :
      (g : GapDetector) (r : ProcessingResult)
      → Stuck g.next_version_to_process g.seen_versions
      → IsBatch r
      → g.next_version_to_process ≡ r.start_version
      → Stuck (update_prev_batch g r).next_version_to_process (update_prev_batch g r).seen_versions
  unfolding update_prev_batch
  update-Stuck g r h ok e =
      let begin : Loop g.seen_versions r = record {
        stuck = record { stored = h.stored; held = h.held; below = omega (arith, h.below) };
        is_batch = ok;
      } in
      let n = length g.seen_versions in
      let (over, _) = drain_inv Loop keep n g.seen_versions r (omega arith) begin in
      record {
        stored = over.stuck.stored;
        held = over.stuck.held;
        below = omega (arith, over.stuck.below, over.is_batch);
      }

  advance-Stuck :
      (g : GapDetector) (r : ProcessingResult)
      → Stuck g.next_version_to_process g.seen_versions
      → IsBatch r
      → Stuck (advance g r).next_version_to_process (advance g r).seen_versions
  advance-Stuck g r h ok = elim (eq_or_ne g.next_version_to_process r.start_version) [
    | inl e ↦ rw (advance_next g r e) (update-Stuck g r h ok e)
    | inr ne ↦ rw (advance_gap g r ne) (record {
      stored = λ k q found. elim (lookup-insert_cases r.start_version k r q g.seen_versions found) [
        | inl (same, itself) ↦ rw (← itself) (same, ok)
        | inr (other, old) ↦ h.stored k q old
      ];
      held = ground (arith, lookup-insert r.start_version late r g.seen_versions, h.held);
      below = h.below;
    })
  ]

  run-Stuck :
      (g : GapDetector) (rs : List ProcessingResult)
      → Stuck g.next_version_to_process g.seen_versions
      → ((r : ProcessingResult) → Has r rs → IsBatch r)
      → Stuck (run g rs).next_version_to_process (run g rs).seen_versions
  unfolding run process_versions
  run-Stuck g [] h ok = h
  run-Stuck g (r ∷ rs) h ok =
      run-Stuck (advance g r) rs (advance-Stuck g r h (ok r (inl refl))) (λ q m. ok q (inr m))

run-append :
    (g : GapDetector) (before : List ProcessingResult) (r : ProcessingResult)
    (after : List ProcessingResult)
    → run g (before ++ r ∷ after) ≡ run (advance (run g before) r) after
unfolding run process_versions
run-append g [] r after = refl
run-append g (q ∷ before) r after = run-append (advance g q) before r after

insert-Stuck :
    (g : GapDetector) (late : ProcessingResult)
    → Stored g.seen_versions
    → IsBatch late
    → late.start_version < g.next_version_to_process
    → Stuck late.start_version
        (advance g late).next_version_to_process
        (advance g late).seen_versions
insert-Stuck g late stored ok below = rw (advance_gap g late (λ e. omega arith)) (record {
  stored = λ k q found.
      elim (lookup-insert_cases late.start_version k late q g.seen_versions found) [
        | inl (same, itself) ↦ rw (← itself) (same, ok)
        | inr (other, old) ↦ stored k q old
      ];
  held = cc (lookup-insert_self late.start_version late g.seen_versions);
  below = below;
})

-- A result that starts below the next version (for instance the second result of a batch that has
-- been counted already) stays in the map for good: whatever results follow it, the map of batches
-- beyond a gap is never empty again.
pub late_result_never_clears :
    (start : ℕ) (before after : List ProcessingResult) (late : ProcessingResult)
    → ((r : ProcessingResult) → Has r before → IsBatch r)
    → IsBatch late
    → ((r : ProcessingResult) → Has r after → IsBatch r)
    → late.start_version < (run (new start) before).next_version_to_process
    → 1 ≤ length (run (new start) (before ++ late ∷ after)).seen_versions
late_result_never_clears start before after late ok_before ok_late ok_after below =
    let g = run (new start) before in
    let inv = reported_versions_covered start before ok_before in
    let stored : Stored g.seen_versions =
      λ k r e. ((inv.seen_has k r e).0, ok_before r (inv.seen_has k r e).1) in
    let h =
      run-Stuck late.start_version (advance g late) after (insert-Stuck g late stored ok_late below)
        ok_after in
    rw (run-append (new start) before late after)
      (lookup-pos late.start_version (run (advance g late) after).seen_versions h.held)
