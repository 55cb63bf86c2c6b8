-- ===== src/GrpcStream/Fetcher/Progress.antt =====
-- A stream on which the fetcher of rust/processor/src/grpc_stream.rs does not panic.
use aptos_indexer_processors.Prelude.{
  ℕ, ◌+◌, ◌^◌, ◌≤◌, ◌<◌, ◌≡◌, ap, refl, inl, inr, done, List, [], ◌∷◌, arith, true, false,
  Bool-cases, u64, leb, Option, Text,
}
use aptos_indexer_processors.Prelude.Int.{ℤ, pos}
use aptos_indexer_processors.Protos.{TransactionsResponse}
use aptos_indexer_processors.GrpcStream.Connect.{reconnection_max_retries}
use aptos_indexer_processors.GrpcStream.Response.{Header, header, eq_ℤ, plus_one, as_i64}
use aptos_indexer_processors.GrpcStream.Response.Delivery.{CanBeWritten, handle_response_returns}
use aptos_indexer_processors.GrpcStream.Fetcher.{
  Settings, Fetcher, Item, response, rpc_error, stream_ended, timed_out, Status, running, finished,
  panicked, init, accept, is_end, reconnect, received_round, failed_round, step, run_from, run,
}
use aptos_indexer_processors.GrpcStream.Fetcher.Invariant.{plus-minus_one}

-- After `k` failed rounds in a row and with the next version `v`: responses that follow each other and
-- whose first and last timestamps can be written to the log (dates being parsed by `chrono`), with
-- at most five failed rounds in a row, whose reconnections work, while the channel is open.
abbrev pub Healthy : (ℤ → ℕ → Option Text) → ℕ → ℕ → List Item → Type 0
Healthy chrono v k [] = Unit
Healthy chrono v k (response alive r ∷ items) =
    (alive ≡ true)
    × ((h : Header) × (header r ≡ done h)
        × CanBeWritten chrono h.start_txn_timestamp
        × CanBeWritten chrono h.end_txn_timestamp
        × (h.start_version ≡ v)
        × (h.start_version ≤ h.end_version)
        × (h.end_version + 1 < 2 ^ 63)
        × Healthy chrono (h.end_version + 1) 0 items)
Healthy chrono v k (rpc_error works ∷ items) =
    (works ≡ true) × (k < reconnection_max_retries) × Healthy chrono v (k + 1) items
Healthy chrono v k (stream_ended works ∷ items) =
    (works ≡ true) × (k < reconnection_max_retries) × Healthy chrono v (k + 1) items
Healthy chrono v k (timed_out works ∷ items) =
    (works ≡ true) × (k < reconnection_max_retries) × Healthy chrono v (k + 1) items

abbrev pub NotPanicked : Status → Type 0
NotPanicked (running s) = Unit
NotPanicked (finished s) = Unit
NotPanicked panicked = ⊥

-- The state agrees with the next version and the failed rounds.
record At (v k : ℕ) (s : Fetcher) : Type 0 where
  next : s.next_version_to_fetch ≡ v
  small : v < 2 ^ 63
  meets : plus_one s.last_fetched_version ≡ pos v
  retries : s.reconnection_retries ≡ k

module _ (c : Settings) (positive : 1 ≤ c.pb_channel_txn_chunk_size) where
  stopped : (s : Fetcher) (items : List Item) → NotPanicked (run_from c (finished s) items)
  unfolding run_from
  stopped s [] = tt
  stopped s (i ∷ items) = tt

  -- What follows a failed round.
  after_failure :
      (v k : ℕ) (s : Fetcher) (items : List Item)
      → At v k s
      → k < reconnection_max_retries
      → ((s' : Fetcher) → At v (k + 1) s' → NotPanicked (run_from c (running s') items))
      → NotPanicked (run_from c (failed_round c s true) items)
  unfolding failed_round reconnect
  after_failure v k s items at more ih =
      let few : leb reconnection_max_retries s.reconnection_retries ≡ false =
        ground (arith, at.retries) in
      elim (Bool-cases (is_end c s)) [
        | inl e ↦ rw e (stopped s items)
        | inr e ↦ rw e (
            rw few (
              ih _ (record {
                next = at.next;
                small = at.small;
                meets = at.meets;
                retries = ap (λ n. n + 1) at.retries;
              })))
      ]

  after_response :
      (v k : ℕ) (s : Fetcher) (r : TransactionsResponse) (h : Header) (items : List Item)
      → At v k s
      → header r ≡ done h
      → CanBeWritten c.from_timestamp_opt h.start_txn_timestamp
      → CanBeWritten c.from_timestamp_opt h.end_txn_timestamp
      → h.start_version ≡ v
      → h.end_version + 1 < 2 ^ 63
      → ((s' : Fetcher) → At (h.end_version + 1) 0 s' → NotPanicked (run_from c (running s') items))
      → NotPanicked (run_from c (step c s (response true r)) items)
  unfolding step received_round accept
  after_response v k s r h items at there starts ends start fits ih =
      let in_range : as_i64 h.start_version ≡ pos v = ground (arith, start, at.small) in
      let equal : eq_ℤ (pos v) (pos v) ≡ true = ground arith in
      let meets : eq_ℤ (plus_one s.last_fetched_version) (as_i64 h.start_version) ≡ true =
        rw (at.meets) (rw in_range equal) in
      let (ms, e) =
        handle_response_returns c.from_timestamp_opt c.include c.pb_channel_txn_chunk_size
          s.last_fetched_version r h positive there starts ends meets in
      let s' = accept s (h, ms) in
      let exact : u64 (h.end_version + 1) ≡ h.end_version + 1 = omega arith in
      let at' : At (h.end_version + 1) 0 s' = record {
        next = exact;
        small = fits;
        meets = ground arith;
        retries = refl;
      } in
      elim (Bool-cases (is_end c s')) [
        | inl over ↦ rw e (rw over (stopped s' items))
        | inr on ↦ rw e (rw on (ih s' at'))
      ]

  Healthy-from :
      (v k : ℕ) (s : Fetcher) (items : List Item)
      → At v k s
      → Healthy c.from_timestamp_opt v k items
      → NotPanicked (run_from c (running s) items)
  unfolding run_from step
  Healthy-from v k s [] at ok = tt
  Healthy-from v k s (response alive r ∷ items) at
        (open_, (h, there, starts, ends, start, le, fits, rest)) =
      rw open_ (
        after_response v k s r h items at there starts ends start fits
          (λ s' at'. Healthy-from (h.end_version + 1) 0 s' items at' rest))
  Healthy-from v k s (rpc_error works ∷ items) at (ok, more, rest) =
      rw ok (after_failure v k s items at more (λ s' at'. Healthy-from v (k + 1) s' items at' rest))
  Healthy-from v k s (stream_ended works ∷ items) at (ok, more, rest) =
      rw ok (after_failure v k s items at more (λ s' at'. Healthy-from v (k + 1) s' items at' rest))
  Healthy-from v k s (timed_out works ∷ items) at (ok, more, rest) =
      rw ok (after_failure v k s items at more (λ s' at'. Healthy-from v (k + 1) s' items at' rest))

  -- With a positive chunk size and a starting version in range, the loop does not panic on a stream
  -- whose responses follow each other from the starting version on and have first and last timestamps
  -- that can be written to the log, while the channel is open, and on which at most five rounds in a
  -- row fail, each with a reconnection that works.
  pub run-NotPanicked :
      (items : List Item)
      → c.starting_version < 2 ^ 63
      → Healthy c.from_timestamp_opt c.starting_version 0 items
      → NotPanicked (run c items)
  unfolding run init
  run-NotPanicked items small ok =
      Healthy-from c.starting_version 0 (init c) items
        (record {
          next = refl;
          small = small;
          meets = plus-minus_one c.starting_version small;
          retries = refl;
        })
        ok
