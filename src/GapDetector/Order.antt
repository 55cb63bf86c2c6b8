-- ===== src/GapDetector/Order.antt =====
-- The order in which concurrent tasks report their batches does not matter to the detector of
-- rust/processor/src/gap_detector.rs.
use aptos_indexer_processors.Prelude.{
  ℕ, ◌<◌, ◌≡◌, ap, refl, ◌⊎◌, inl, inr, List, [], ◌∷◌, arith, length, ◌↔◌, Has, nat_eq, u64_mod,
  Option-cases,
}
use aptos_indexer_processors.Prelude.Dict.{lookup, eq-nil}
use aptos_indexer_processors.GapDetector.{
  ProcessingResult, GapDetector, new, advance, process_versions, run,
}
use aptos_indexer_processors.GapDetector.Plan.{Tiles, Distinct, Tiles-Within}
use aptos_indexer_processors.GapDetector.Sync.{Synced, advance-Synced, new-Synced}

module _ (start fin : ℕ) (plan : List ProcessingResult) (tiles : Tiles start plan fin)
    (small : fin < u64_mod) where
  -- After the results `rs` some list `done` of results has arrived, `rs` and `got` among them.
  run-Synced :
      (got : List ProcessingResult) (g : GapDetector) (rs : List ProcessingResult)
      → Synced start fin plan got g.next_version_to_process 0 g.seen_versions
      → ((r : ProcessingResult) → Has r rs → Has r plan × ¬ Has r got)
      → Distinct rs
      → let g' = run g rs in
        (done : List ProcessingResult) × Synced start fin plan done g'.next_version_to_process 0
          g'.seen_versions
        × ((r : ProcessingResult) → Has r got ⊎ Has r rs → Has r done)
  unfolding run process_versions
  run-Synced got g [] h fresh distinct = (got, h, λ r m. elim m [ inl a ↦ a | inr b ↦ absurd b ])
  run-Synced got g (r ∷ rs) h fresh distinct =
      let (planned, new_one) = fresh r (inl refl) in
      let (done, synced, incl) =
        run-Synced (r ∷ got) (advance g r) rs
          (advance-Synced start fin plan tiles small got g r h planned new_one)
          (λ q m. (
            (fresh q (inr m)).0,
            λ k. elim k [
              | inl same ↦ distinct.0 (rw (← same) m)
              | inr old ↦ (fresh q (inr m)).1 old
            ],
          ))
          distinct.1 in
      (
        done,
        synced,
        λ q m. elim m [
          | inl old ↦ incl q (inl (inr old))
          | inr (inl same) ↦ incl q (inl (inl same))
          | inr (inr later) ↦ incl q (inr later)
        ],
      )

  -- When batches that tile the versions from `start` up to `fin` have all been reported, each once, in
  -- any order, the next version is `fin` and no gap is left.
  pub any_order :
      (rs : List ProcessingResult)
      → ((r : ProcessingResult) → Has r rs ↔ Has r plan)
      → Distinct rs
      → let g = run (new start) rs in
        (g.next_version_to_process ≡ fin) × (length g.seen_versions ≡ 0)
  any_order rs same distinct =
      let (done, h, incl) =
        run-Synced [] (new start) rs (new-Synced start fin plan tiles small)
          (λ r m. ((same r).0 m, λ n. n)) distinct in
      let g = run (new start) rs in
      let arrived : (r : ProcessingResult) → Has r plan → Has r done =
        λ r m. incl r (inr ((same r).1 m)) in
      let reached : g.next_version_to_process ≡ fin = elim h.boundary [
        | inl e ↦ e
        | inr (r, planned, e) ↦ elim (h.waiting r (arrived r planned)) [
          | inl below ↦ absurd (omega arith)
          | inr found ↦ absurd (omega (arith, h.seen_after r.start_version r found))
        ]
      ] in
      (
        reached,
        ap length (
            eq-nil g.seen_versions (λ k. elim (Option-cases (lookup k g.seen_versions)) [
              | inl e ↦ e
              | inr (r, found) ↦
                  let (at, planned, _, later) = h.seen_after k r found in
                  absurd (omega (arith, Tiles-Within start fin plan r tiles planned))
            ])),
      )
