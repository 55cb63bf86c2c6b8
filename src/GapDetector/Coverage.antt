-- ===== src/GapDetector/Coverage.antt =====
-- What `next_version_to_process` of rust/processor/src/gap_detector.rs promises, whatever batches
-- arrive and in whatever order.
use aptos_indexer_processors.Prelude.{
  ℕ, ◌+◌, ◌≤◌, ◌<◌, ◌≡◌, sym, refl, ◌⊎◌, inl, inr, Option, none, some, List, [], ◌∷◌, arith, length,
  Has, nat_eq, lt_or_le, eq_or_ne,
}
use aptos_indexer_processors.Prelude.Dict.{Dict, lookup, remove, lookup-insert, lookup-remove}
use aptos_indexer_processors.GapDetector.{
  ProcessingResult, GapDetector, new, next_version, update_prev_batch, advance, process_versions,
  run, IsBatch,
}
use aptos_indexer_processors.GapDetector.Drain.{drain_inv, advance_next, advance_gap}

-- A version lies in one of the batches.
abbrev pub Covered : ℕ → List ProcessingResult → Type 0
Covered v [] = ⊥
Covered v (r ∷ rs) = ((r.start_version ≤ v) × (v ≤ r.end_version)) ⊎ Covered v rs

pub Has-Covered :
    (v : ℕ) (r : ProcessingResult) (rs : List ProcessingResult)
    → Has r rs
    → r.start_version ≤ v
    → v ≤ r.end_version
    → Covered v rs
Has-Covered v r [] h lo hi = h
Has-Covered v r (x ∷ rs) (inl e) lo hi = ground arith
Has-Covered v r (x ∷ rs) (inr h) lo hi = inr (Has-Covered v r rs h lo hi)

-- The last success is the batch just below the next version; before the first success the next
-- version is the starting one.
abbrev pub LastMeets : ℕ → ℕ → Option ProcessingResult → Type 0
LastMeets start next none = next ≡ start
LastMeets start next (some r) = next ≡ r.end_version + 1

module _ (start : ℕ) (all : List ProcessingResult) where
  -- The batches that have been received stand in `all`.
  pub record Inv (g : GapDetector) : Type 0 where
    pub from_start : start ≤ g.next_version_to_process
    pub seen_has :
        (k : ℕ) (r : ProcessingResult)
        → lookup k g.seen_versions ≡ some r
        → (r.start_version ≡ k) × Has r all
    pub covered : (v : ℕ) → start ≤ v → v < g.next_version_to_process → Covered v all
    pub maximal : lookup g.next_version_to_process g.seen_versions ≡ none
    pub last_meets : LastMeets start g.next_version_to_process g.last_success_batch

  record Loop (seen : Dict ℕ ProcessingResult) (b : ProcessingResult) : Type 0 where
    from_start : start ≤ b.end_version + 1
    is_batch : IsBatch b
    seen_has :
        (k : ℕ) (r : ProcessingResult) → lookup k seen ≡ some r → (r.start_version ≡ k) × Has r all
    covered : (v : ℕ) → start ≤ v → v < b.end_version + 1 → Covered v all

  module _ (batches : (r : ProcessingResult) → Has r all → IsBatch r) where
    extend :
        (x : ℕ) (n : ProcessingResult)
        → ((v : ℕ) → start ≤ v → v < x → Covered v all)
        → n.start_version ≡ x
        → Has n all
        → (v : ℕ) → start ≤ v
        → v < n.end_version + 1
        → Covered v all
    extend x n cov e has v lo hi = elim (lt_or_le v x) [
      | inl below ↦ cov v lo below
      | inr above ↦ Has-Covered v n all has (omega arith) (omega arith)
    ]

    keep :
        (seen : Dict ℕ ProcessingResult) (b n : ProcessingResult)
        → Loop seen b
        → lookup (next_version b) seen ≡ some n
        → Loop (remove (next_version b) seen) n
    keep seen b n h e =
        let (starts, has) = h.seen_has (next_version b) n e in
        let ok = batches n has in
        record {
          from_start = omega (arith, h.from_start, h.is_batch, ok);
          is_batch = ok;
          seen_has =
              λ k r found. ground (arith, lookup-remove (next_version b) k seen, h.seen_has k r);
          covered = extend (b.end_version + 1) n h.covered (omega (arith, h.is_batch)) has;
        }

    update-Inv :
        (g : GapDetector) (r : ProcessingResult)
        → Inv g
        → Has r all
        → g.next_version_to_process ≡ r.start_version
        → Inv (update_prev_batch g r)
    unfolding update_prev_batch
    update-Inv g r h has e =
        let ok = batches r has in
        let begin : Loop g.seen_versions r = record {
          from_start = omega (arith, h.from_start);
          is_batch = ok;
          seen_has = h.seen_has;
          covered = extend g.next_version_to_process r h.covered (sym e) has;
        } in
        let n = length g.seen_versions in
        let (fin, stops) = drain_inv Loop keep n g.seen_versions r (omega arith) begin in
        record {
          from_start = omega (arith, fin.from_start, fin.is_batch);
          seen_has = fin.seen_has;
          covered = λ v lo hi. fin.covered v lo (omega (arith, fin.is_batch));
          maximal = stops;
          last_meets = omega (arith, fin.is_batch);
        }

    pub advance-Inv :
        (g : GapDetector) (r : ProcessingResult) → Inv g → Has r all → Inv (advance g r)
    advance-Inv g r h has = elim (eq_or_ne g.next_version_to_process r.start_version) [
      | inl e ↦ rw (advance_next g r e) (update-Inv g r h has e)
      | inr ne ↦ rw (advance_gap g r ne) (record {
        from_start = h.from_start;
        seen_has = λ k q found.
            ground (arith, lookup-insert r.start_version k r g.seen_versions, h.seen_has k q);
        covered = h.covered;
        maximal = ground (
          arith,
          lookup-insert r.start_version g.next_version_to_process r g.seen_versions,
          h.maximal,
        );
        last_meets = h.last_meets;
      })
    ]

    pub run-Inv :
        (g : GapDetector) (rs : List ProcessingResult)
        → Inv g
        → ((r : ProcessingResult) → Has r rs → Has r all)
        → Inv (run g rs)
    unfolding run process_versions
    run-Inv g [] h has = h
    run-Inv g (r ∷ rs) h has =
        run-Inv (advance g r) rs (advance-Inv g r h (has r (inl refl))) (λ q m. has q (inr m))

  pub new-Inv : Inv (new start)
  unfolding new lookup
  new-Inv = record {
    from_start = omega arith;
    seen_has = λ k r found. cc;
    covered = λ v lo hi. absurd (omega arith);
    maximal = refl;
    last_meets = refl;
  }

  -- After any results, each a range of versions, in any order: every version from the starting one up to
  -- the reported `next_version_to_process` lies in a result that was received; the reported last
  -- success ends just below it; and no received batch that starts at it is left waiting.
  pub reported_versions_covered :
      ((r : ProcessingResult) → Has r all → IsBatch r) → Inv (run (new start) all)
  reported_versions_covered batches = run-Inv batches (new start) all new-Inv (λ r m. m)
