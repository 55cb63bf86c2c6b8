-- ===== src/GapDetector/Carried.antt =====
-- What holds of every result that reaches the detector of rust/processor/src/gap_detector.rs holds of the
-- results that it keeps.
use aptos_indexer_processors.Prelude.{ℕ, ◌≡◌, inl, inr, some, arith, length, nat_eq, eq_or_ne}
use aptos_indexer_processors.Prelude.Dict.{Dict, lookup, remove, lookup-insert_cases, lookup-remove}
use aptos_indexer_processors.GapDetector.{
  ProcessingResult, GapDetector, new, next_version, update_prev_batch, process_versions,
}
use aptos_indexer_processors.GapDetector.Drain.{drain_inv, advance_next, advance_gap}

module _ (Q : ProcessingResult → Type 0) where
  abbrev AllStored : Dict ℕ ProcessingResult → Type 0
  AllStored seen = (k : ℕ) (r : ProcessingResult) → lookup k seen ≡ some r → Q r

  -- The waiting batches and the last success satisfy `Q`.
  pub record Carried (g : GapDetector) : Type 0 where
    pub stored : (k : ℕ) (r : ProcessingResult) → lookup k g.seen_versions ≡ some r → Q r
    pub last : (r : ProcessingResult) → g.last_success_batch ≡ some r → Q r

  record Loop (seen : Dict ℕ ProcessingResult) (b : ProcessingResult) : Type 0 where
    stored : AllStored seen
    batch : Q b

  keep :
      (seen : Dict ℕ ProcessingResult) (b n : ProcessingResult)
      → Loop seen b
      → lookup (next_version b) seen ≡ some n
      → Loop (remove (next_version b) seen) n
  keep seen b n h found = record {
    stored = λ k r e. h.stored k r (ground (arith, lookup-remove (next_version b) k seen));
    batch = h.stored (next_version b) n found;
  }

  pub new-Carried : (start : ℕ) → Carried (new start)
  unfolding new lookup
  new-Carried start = record { stored = λ k r e. cc; last = λ r e. cc }

  of_some : {a b : ProcessingResult} → some a ≡ some b → Q a → Q b
  of_some {a} {b} e q = let same : a ≡ b = cc in rw (← same) q

  update-Carried :
      (g : GapDetector) (r : ProcessingResult) → Carried g → Q r → Carried (update_prev_batch g r)
  unfolding update_prev_batch
  update-Carried g r h q =
      let begin : Loop g.seen_versions r = record { stored = h.stored; batch = q } in
      let (over, _) =
        drain_inv Loop keep (length g.seen_versions) g.seen_versions r (omega arith) begin in
      record { stored = over.stored; last = λ b e. of_some e over.batch }

  pub process_versions-Carried :
      (g : GapDetector) (r : ProcessingResult) → Carried g → Q r → Carried (process_versions g r).0
  unfolding process_versions
  process_versions-Carried g r h q = elim (eq_or_ne g.next_version_to_process r.start_version) [
    | inl e ↦ rw (advance_next g r e) (update-Carried g r h q)
    | inr ne ↦ rw (advance_gap g r ne) (record {
      stored = λ k b found. elim (lookup-insert_cases r.start_version k r b g.seen_versions found) [
        | inl (_, itself) ↦ rw (← itself) q
        | inr (_, old) ↦ h.stored k b old
      ];
      last = h.last;
    })
  ]
