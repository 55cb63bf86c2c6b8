-- ===== src/Worker/Pipeline.antt =====
-- From the fetcher through the workers to the gap detector (rust/processor/src/worker.rs).
use aptos_indexer_processors.Prelude.{
  ℕ, ◌+◌, ◌≡◌, ◌↔◌, ◌∙◌, refl, sym, ap, inl, inr, Option, some, done, panic, unwrap, unwrap-eq-done,
  done-injective, panic-ne-done, >>=-eq-done, List, [], ◌∷◌, map, arith, length, concat, All, Has,
  Bool-cases, ◌==◌, nat_eq,
}
use aptos_indexer_processors.Prelude.Int.{ℤ}
use aptos_indexer_processors.Protos.{Transaction}
use aptos_indexer_processors.GapDetector.{ProcessingResult, new, run}
use aptos_indexer_processors.GapDetector.Plan.{Tiles, Distinct}
use aptos_indexer_processors.GapDetector.Order.{any_order}
use aptos_indexer_processors.GrpcStream.Response.{TransactionsPbResponse, Header}
use aptos_indexer_processors.GrpcStream.Fetcher.{Settings, Fetcher}
use aptos_indexer_processors.GrpcStream.Fetcher.Invariant.{Inv, Groups, result_of}
use aptos_indexer_processors.Worker.{
  Processor, process_txns, do_processor, skipped_result, parse_some, process_checked,
  process_message, launch_processor_task,
}

-- The contract of a processor: its result names the versions that it was given.
abbrev pub KeepsVersions : Processor → Type 0
KeepsVersions process =
    (txns : List Transaction) (s e : ℕ) (c : Option ℕ) (r : ProcessingResult)
    → process txns s e c ≡ some r
    → (r.start_version ≡ s) × (r.end_version ≡ e)

-- The result has the versions of the message.
abbrev pub ResultOf : TransactionsPbResponse → ProcessingResult → Type 0
ResultOf pb r = (r.start_version ≡ pb.start_version) × (r.end_version ≡ pb.end_version)

-- The results answer the messages, one each.
abbrev pub Answers : List TransactionsPbResponse → List (ProcessingResult × ℕ) → Type 0
Answers [] [] = Unit
Answers (pb ∷ pbs) (r ∷ rs) = ResultOf pb r.0 × Answers pbs rs
Answers _ _ = ⊥

module _ {D : Type 0} (from_timestamp_opt : ℤ → ℕ → Option D) (process : Processor)
    (keeps : KeepsVersions process) where
  process_txns_versions :
      (chain : ℕ) (pb : TransactionsPbResponse) (txns : List Transaction) (r : ProcessingResult)
      → process_txns process chain pb txns ≡ some r
      → ResultOf pb r
  unfolding process_txns skipped_result
  process_txns_versions chain pb [] r e =
      let same : skipped_result pb ≡ r = cc in rw (← same) (refl, refl)
  process_txns_versions chain pb (t ∷ ts) r e =
      keeps (t ∷ ts) pb.start_version pb.end_version (some chain) r e

  message_versions :
      (chain : ℕ) (pb : TransactionsPbResponse) (r : ProcessingResult × ℕ)
      → process_message from_timestamp_opt process chain pb ≡ done r
      → ResultOf pb r.0
  unfolding process_message process_checked do_processor
  message_versions chain pb r e =
      let (_, _, e1) = >>=-eq-done (parse_some from_timestamp_opt pb.start_txn_timestamp) _ e in
      let (_, _, e2) = >>=-eq-done (parse_some from_timestamp_opt pb.end_txn_timestamp) _ e1 in
      elim (Bool-cases (pb.chain_id == chain)) [
        | inl same ↦
            let checked : process_checked from_timestamp_opt process chain pb ≡ done r =
              rw same at e2 in
            let (res, processed, e3) =
              >>=-eq-done (unwrap (do_processor process chain pb)) _ checked in
            let (_, _, e4) = >>=-eq-done (unwrap pb.end_txn_timestamp) _ e3 in
            let same_result : res ≡ r.0 = ap (λ p. p.0) (done-injective e4) in
            rw (← same_result) (
              process_txns_versions chain pb pb.transactions res
                (unwrap-eq-done (do_processor process chain pb) processed))
        | inr other ↦ let stop : panic ≡ done r = rw other at e2 in absurd (panic-ne-done stop)
      ]

  pub task-Answers :
      (chain : ℕ) (pbs : List TransactionsPbResponse) (rs : List (ProcessingResult × ℕ))
      → launch_processor_task from_timestamp_opt process chain pbs ≡ done rs
      → Answers pbs rs
  unfolding launch_processor_task
  task-Answers chain [] rs e = rw (← done-injective e) tt
  task-Answers chain (pb ∷ pbs) rs e =
      let (r, e1, rest) = >>=-eq-done (process_message from_timestamp_opt process chain pb) _ e in
      let (rs', e2, e3) =
        >>=-eq-done (launch_processor_task from_timestamp_opt process chain pbs) _ rest in
      rw (← done-injective e3) (message_versions chain pb r e1, task-Answers chain pbs rs' e2)

-- Every response has gone out in one message.
abbrev pub Unsplit : List (List TransactionsPbResponse) → Type 0
Unsplit gs = All (λ g. length g ≡ 1) gs

-- The results of unsplit groups tile the versions that their headers tile.
results_tile :
    (n s e : ℕ) (hs : List Header) (gs : List (List TransactionsPbResponse))
    (rs : List (ProcessingResult × ℕ))
    → Groups n hs gs
    → Unsplit gs
    → Answers (concat gs) rs
    → Tiles s (map result_of hs) e
    → Tiles s (map (λ p. p.0) rs) e
results_tile n s e [] [] [] g one a t = t
results_tile n s e [] [] (r ∷ rs) g one a t = absurd a
results_tile n s e [] (x ∷ gs) rs g one a t = absurd g
results_tile n s e (h ∷ hs) [] rs g one a t = absurd g
results_tile n s e (h ∷ hs) ([] ∷ gs) rs g one a t = absurd (omega (arith, one.0))
results_tile n s e (h ∷ hs) ((m ∷ m' ∷ ms) ∷ gs) rs g one a t = absurd (omega (arith, one.0))
results_tile n s e (h ∷ hs) ((m ∷ []) ∷ gs) [] g one a t = absurd a
results_tile n s e (h ∷ hs) ((m ∷ []) ∷ gs) (r ∷ rs) g one a t =
    let next : h.end_version ≡ r.0.end_version = sym (a.0.1 ∙ g.1.0.1) in
    let tail = results_tile n (h.end_version + 1) e hs gs rs g.2 one.1 a.1 t.2 in
    (a.0.0 ∙ g.1.0.0 ∙ t.0, omega (arith, next, t.1), rw (← next) tail)

-- A fetcher whose messages have all been processed, where no response was split: in whatever order the
-- concurrent tasks report the results, each once, the detector's next version is the fetcher's, and no
-- batch is left behind a gap.
pub pipeline_reaches_end :
    {D : Type 0} (from_timestamp_opt : ℤ → ℕ → Option D) (process : Processor) (chain : ℕ)
    (c : Settings) (txns : List Transaction) (s : Fetcher) (rs : List (ProcessingResult × ℕ))
    (arrived : List ProcessingResult)
    → KeepsVersions process
    → Inv c txns s
    → Unsplit s.sent
    → launch_processor_task from_timestamp_opt process chain (concat s.sent) ≡ done rs
    → ((r : ProcessingResult) → Has r arrived ↔ Has r (map (λ p. p.0) rs))
    → Distinct arrived
    → let g = run (new c.starting_version) arrived in
      (g.next_version_to_process ≡ s.next_version_to_fetch) × (length g.seen_versions ≡ 0)
pipeline_reaches_end from_timestamp_opt process chain c txns s rs arrived keeps inv one e same
      distinct =
    let answers = task-Answers from_timestamp_opt process keeps chain (concat s.sent) rs e in
    any_order c.starting_version s.next_version_to_fetch (map (λ p. p.0) rs)
      (results_tile c.pb_channel_txn_chunk_size c.starting_version s.next_version_to_fetch
        inv.headers s.sent rs inv.groups one answers inv.no_gap)
      (omega (arith, inv.small)) arrived same distinct
