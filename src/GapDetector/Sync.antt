-- ===== src/GapDetector/Sync.antt =====
-- How far the detector of rust/processor/src/gap_detector.rs is when some batches of a plan have
-- arrived: the invariant that one more batch keeps.
use aptos_indexer_processors.Prelude.{
  ℕ, ◌+◌, ◌≤◌, ◌<◌, ◌≡◌, ◌∙◌, sym, refl, ◌⊎◌, inl, inr, none, some, List, [], ◌∷◌, arith, length,
  Has, nat_eq, eq_or_ne, lt_or_le, u64_mod,
}
use aptos_indexer_processors.Prelude.Dict.{
  Dict, lookup, remove, lookup-insert_self, lookup-insert_ne, lookup-insert_cases, lookup-remove,
}
use aptos_indexer_processors.GapDetector.{
  ProcessingResult, GapDetector, new, next_version, drain, update_prev_batch, advance,
}
use aptos_indexer_processors.GapDetector.Drain.{drain_inv, advance_next, advance_gap}
use aptos_indexer_processors.GapDetector.Plan.{
  Tiles, Boundary, Tiles-Within, Tiles-Apart, Tiles-first, Tiles-next,
}

module _ (start fin : ℕ) (plan : List ProcessingResult) where
  -- What holds when the batches of `got` have arrived and all versions below `next` are done.
  pub record Synced (got : List ProcessingResult) (next : ℕ) (slack : ℕ)
      (seen : Dict ℕ ProcessingResult) : Type 0 where
    pub boundary : Boundary plan fin next
    pub seen_after :
        (k : ℕ) (r : ProcessingResult)
        → lookup k seen ≡ some r
        → (r.start_version ≡ k) × Has r plan × Has r got × (next < k + slack)
    pub waiting :
        (r : ProcessingResult)
        → Has r got
        → (r.start_version < next) ⊎ (lookup r.start_version seen ≡ some r)
    pub passed : (r : ProcessingResult) → Has r plan → r.start_version < next → Has r got

  record Loop (got : List ProcessingResult) (seen : Dict ℕ ProcessingResult) (b : ProcessingResult)
      : Type 0 where
    in_plan : Has b plan
    synced : Synced got (b.end_version + 1) 1 seen

  module _ (tiles : Tiles start plan fin) (small : fin < u64_mod) where
    same_start :
        (a b : ProcessingResult)
        → Has a plan
        → Has b plan
        → a.start_version ≡ b.start_version
        → a ≡ b
    same_start a b ma mb e = ground (
      arith,
      Tiles-Apart start fin plan a b tiles ma mb,
      Tiles-Within start fin plan a tiles ma,
      Tiles-Within start fin plan b tiles mb,
    )

    starts_later :
        (a b : ProcessingResult)
        → Has a plan
        → Has b plan
        → a.start_version < b.start_version
        → a.end_version < b.start_version
    starts_later a b ma mb lt = ground (
      arith,
      Tiles-Apart start fin plan a b tiles ma mb,
      Tiles-Within start fin plan a tiles ma,
      Tiles-Within start fin plan b tiles mb,
    )

    -- A batch that starts where the versions done so far end is taken up.
    take_up :
        (got got' : List ProcessingResult) (next slack : ℕ) (seen rest : Dict ℕ ProcessingResult)
        (n : ProcessingResult)
        → slack ≤ 1
        → Synced got next slack seen
        → n.start_version ≡ next
        → Has n plan
        → ((q : ProcessingResult) → Has q got → Has q got')
        → ((q : ProcessingResult) → Has q got' → (q ≡ n) ⊎ Has q got)
        → Has n got'
        → ((k : ℕ) (r : ProcessingResult)
            → lookup k rest ≡ some r
            → (lookup k seen ≡ some r) × ¬ (k ≡ next))
        → ((k : ℕ) (r : ProcessingResult)
            → lookup k seen ≡ some r
            → ¬ (k ≡ next)
            → lookup k rest ≡ some r)
        → Loop got' rest n
    take_up got got' next slack seen rest n le h starts in_plan incl split in_got sub sup =
        let w = Tiles-Within start fin plan n tiles in_plan in
        record {
          in_plan = in_plan;
          synced = record {
            boundary = Tiles-next start fin plan n tiles in_plan;
            seen_after = λ k r found.
                let (before, other) = sub k r found in
                let (at, planned, arrived, later) = h.seen_after k r before in
                (
                  at,
                  planned,
                  incl r arrived,
                  omega (arith, starts_later n r in_plan planned (omega arith)),
                );
            waiting = λ r m. elim (split r m) [
              | inl itself ↦ inl (rw itself (omega arith))
              | inr old ↦ elim (h.waiting r old) [
                | inl below ↦ inl (omega arith)
                | inr found ↦ elim (eq_or_ne r.start_version next) [
                  | inl same ↦ inl (omega arith)
                  | inr other ↦ inr (sup r.start_version r found other)
                ]
              ]
            ];
            passed = λ r m lt. elim (lt_or_le r.start_version next) [
              | inl below ↦ incl r (h.passed r m below)
              | inr above ↦ elim (eq_or_ne r.start_version next) [
                | inl same ↦ rw (same_start r n m in_plan (same ∙ sym starts)) in_got
                | inr other ↦ absurd (omega (arith, starts_later n r in_plan m (omega arith)))
              ]
            ];
          };
        }

    step_over : (b : ProcessingResult) → Has b plan → next_version b ≡ b.end_version + 1
    step_over b m = omega (arith, Tiles-Within start fin plan b tiles m)

    keep :
        (got : List ProcessingResult) (seen : Dict ℕ ProcessingResult) (b n : ProcessingResult)
        → Loop got seen b
        → lookup (next_version b) seen ≡ some n
        → Loop got (remove (next_version b) seen) n
    keep got seen b n h found =
        let key = step_over b h.in_plan in
        let (at, planned, arrived, _) = h.synced.seen_after (next_version b) n found in
        take_up got got (b.end_version + 1) 1 seen (remove (next_version b) seen) n (omega arith)
          h.synced (at ∙ key) planned (λ q m. m) (λ q m. inr m) arrived
          (λ k r e. ground (arith, lookup-remove (next_version b) k seen, key))
          (λ k r e ne. ground (arith, lookup-remove (next_version b) k seen, key))

    -- The end of the loop: what waits starts strictly later.
    settle :
        (got : List ProcessingResult) (seen : Dict ℕ ProcessingResult) (b : ProcessingResult)
        → Loop got seen b
        → lookup (next_version b) seen ≡ none
        → Synced got (next_version b) 0 seen
    settle got seen b h stops =
        let key = step_over b h.in_plan in
        rw key (record {
          boundary = h.synced.boundary;
          seen_after = λ k r found.
              let (at, planned, arrived, later) = h.synced.seen_after k r found in
              let other : ¬ (k ≡ next_version b) = λ e. cc in (at, planned, arrived, omega arith);
          waiting = h.synced.waiting;
          passed = h.synced.passed;
        })

    update-Synced :
        (got : List ProcessingResult) (g : GapDetector) (r : ProcessingResult)
        → Synced got g.next_version_to_process 0 g.seen_versions
        → Has r plan
        → g.next_version_to_process ≡ r.start_version
        → let g' = update_prev_batch g r in
          Synced (r ∷ got) g'.next_version_to_process 0 g'.seen_versions
    unfolding update_prev_batch
    update-Synced got g r h planned e =
        let begin =
          take_up got (r ∷ got) g.next_version_to_process 0 g.seen_versions g.seen_versions r
            (omega arith) h (sym e) planned (λ q m. inr m) (λ q m. m) (inl refl)
            (λ k q found. (found, λ same. omega (arith, h.seen_after k q found)))
            (λ k q found other. found) in
        let n = length g.seen_versions in
        let (over, stops) =
          drain_inv (Loop (r ∷ got)) (keep (r ∷ got)) n g.seen_versions r (omega arith) begin in
        settle (r ∷ got) (drain n g.seen_versions r).0 (drain n g.seen_versions r).1 over stops

    -- One more result of the plan, not received before.
    pub advance-Synced :
        (got : List ProcessingResult) (g : GapDetector) (r : ProcessingResult)
        → Synced got g.next_version_to_process 0 g.seen_versions
        → Has r plan
        → ¬ Has r got
        → Synced (r ∷ got) (advance g r).next_version_to_process 0 (advance g r).seen_versions
    advance-Synced got g r h planned fresh =
        let above : ¬ (r.start_version < g.next_version_to_process) =
          λ lt. fresh (h.passed r planned lt) in
        elim (eq_or_ne g.next_version_to_process r.start_version) [
          | inl e ↦ rw (advance_next g r e) (update-Synced got g r h planned e)
          | inr ne ↦ rw (advance_gap g r ne) (record {
            boundary = h.boundary;
            seen_after = λ k q found.
                elim (lookup-insert_cases r.start_version k r q g.seen_versions found) [
                  | inl (same, itself) ↦
                      (cc, rw (← itself) planned, inl (sym itself), omega (arith, above))
                  | inr (other, old) ↦
                      let (at, ours, arrived, later) = h.seen_after k q old in
                      (at, ours, inr arrived, later)
                ];
            waiting = λ q m. elim m [
              | inl itself ↦ inr (rw itself (lookup-insert_self r.start_version r g.seen_versions))
              | inr old ↦ elim (h.waiting q old) [
                | inl below ↦ inl below
                | inr found ↦
                    let (_, ours, _, _) = h.seen_after q.start_version q found in
                    let other : ¬ (r.start_version ≡ q.start_version) =
                      λ same. fresh (rw (same_start r q planned ours same) old) in
                    inr (
                      lookup-insert_ne r.start_version q.start_version r g.seen_versions other
                      ∙ found)
              ]
            ];
            passed = λ q m lt. inr (h.passed q m lt);
          })
        ]

    pub new-Synced : Synced [] (new start).next_version_to_process 0 (new start).seen_versions
    unfolding new lookup
    new-Synced = record {
      boundary = Tiles-first start fin plan tiles;
      seen_after = λ k r found. cc;
      waiting = λ r m. absurd m;
      passed = λ r m lt. absurd (omega (arith, Tiles-Within start fin plan r tiles m));
    }
