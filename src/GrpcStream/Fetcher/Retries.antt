-- ===== src/GrpcStream/Fetcher/Retries.antt =====
-- When the fetcher of rust/processor/src/grpc_stream.rs stops, and how it reconnects.
use aptos_indexer_processors.Prelude.{
  ℕ, ◌+◌, ◌≤◌, ◌<◌, ◌≡◌, refl, inl, inr, some, Outcome, done, panic, List, [], ◌∷◌, arith, Bool,
  true, false, length, All, Option-cases, ltb, leb, if◌then◌else◌,
}
use aptos_indexer_processors.Protos.{GetTransactionsRequest}
use aptos_indexer_processors.GrpcStream.Connect.{reconnection_max_retries}
use aptos_indexer_processors.GrpcStream.Response.{TransactionsPbResponse, Header}
use aptos_indexer_processors.GrpcStream.Fetcher.{
  Settings, Fetcher, Item, response, rpc_error, stream_ended, timed_out, Status, running, finished,
  panicked, init, accept, is_end, reconnect, received_round, failed_round, step, run_from, run,
}

-- The loop has reached the ending version where it has finished.
abbrev pub ReachedEnd : Settings → Status → Type 0
ReachedEnd c (running s) = Unit
ReachedEnd c (finished s) =
    (e : ℕ) × (c.request_ending_version ≡ some e) × (e < s.next_version_to_fetch)
ReachedEnd c panicked = Unit

module _ (c : Settings) where
  is_end_lem :
      (s : Fetcher)
      → is_end c s ≡ true
      → (e : ℕ) × (c.request_ending_version ≡ some e) × (e < s.next_version_to_fetch)
  unfolding is_end
  is_end_lem s h = elim (Option-cases c.request_ending_version) [
    | inl n ↦ let stop : false ≡ true = rw n at h in cc
    | inr (e, at) ↦
        let past : ltb e s.next_version_to_fetch ≡ true = rw at at h in (e, at, ground arith)
  ]

  end_round :
      (b : Bool) (s : Fetcher) (other : Status)
      → is_end c s ≡ b
      → ReachedEnd c other
      → ReachedEnd c (if b then finished s else other)
  end_round true s other e h = is_end_lem s e
  end_round false s other e h = h

  reconnect_running : (s : Fetcher) (works : Bool) → ReachedEnd c (reconnect c s works)
  unfolding reconnect
  reconnect_running s works =
      stays_running _ (leb reconnection_max_retries s.reconnection_retries) works
    where
      stays_running :
          (s' : Fetcher) (exhausted works : Bool)
          → ReachedEnd c (if exhausted then panicked else if works then running s' else panicked)
      stays_running s' true works = tt
      stays_running s' false true = tt
      stays_running s' false false = tt

  failed_round_end : (s : Fetcher) (works : Bool) → ReachedEnd c (failed_round c s works)
  unfolding failed_round
  failed_round_end s works =
      end_round (is_end c s) s (reconnect c s works) refl (reconnect_running s works)

  received_round_end :
      (s : Fetcher) (alive : Bool) (o : Outcome (Header × List TransactionsPbResponse))
      → ReachedEnd c (received_round c s alive o)
  unfolding received_round
  received_round_end s alive panic = tt
  received_round_end s true (done a) =
      end_round (is_end c (accept s a)) (accept s a) (running (accept s a)) refl tt
  received_round_end s false (done a) = tt

  step_end : (s : Fetcher) (i : Item) → ReachedEnd c (step c s i)
  unfolding step
  step_end s (response alive r) = received_round_end s alive _
  step_end s (rpc_error works) = failed_round_end s works
  step_end s (stream_ended works) = failed_round_end s works
  step_end s (timed_out works) = failed_round_end s works

  run_from_end :
      (status : Status) (items : List Item)
      → ReachedEnd c status
      → ReachedEnd c (run_from c status items)
  unfolding run_from
  run_from_end status [] h = h
  run_from_end (finished s) (i ∷ items) h = h
  run_from_end panicked (i ∷ items) h = h
  run_from_end (running s) (i ∷ items) h = run_from_end (step c s i) items (step_end s i)

  -- Whatever the stream yields, a loop that finishes has an ending version, and has passed it.
  pub finished_past_end : (items : List Item) → ReachedEnd c (run c items)
  unfolding run
  finished_past_end items = run_from_end (running (init c)) items tt

-- A round in which nothing was received.
abbrev pub IsFailure : Item → Type 0
IsFailure (response alive r) = ⊥
IsFailure (rpc_error works) = Unit
IsFailure (stream_ended works) = Unit
IsFailure (timed_out works) = Unit

abbrev pub HasStopped : Status → Type 0
HasStopped (running s) = ⊥
HasStopped (finished s) = Unit
HasStopped panicked = Unit

-- The loop has stopped, or runs on with one more retry.
abbrev pub OneMoreRetry : Fetcher → Status → Type 0
OneMoreRetry s (running s') =
    (s'.reconnection_retries ≡ s.reconnection_retries + 1)
    × (s.reconnection_retries < reconnection_max_retries)
OneMoreRetry s (finished s') = Unit
OneMoreRetry s panicked = Unit

module _ (c : Settings) where
  failed_round_retry : (s : Fetcher) (works : Bool) → OneMoreRetry s (failed_round c s works)
  unfolding failed_round reconnect
  failed_round_retry s works =
      rounds _ (is_end c s) (leb reconnection_max_retries s.reconnection_retries) works
        (λ h. ground arith)
    where
      rounds :
          (reqs : List GetTransactionsRequest) (over exhausted works : Bool)
          → (exhausted ≡ false → s.reconnection_retries < reconnection_max_retries)
          → OneMoreRetry s (
              if over
              then finished s
              else if exhausted
              then panicked
              else if works
              then running
                  (record s { reconnection_retries = s.reconnection_retries + 1; requests = reqs })
              else panicked)
      rounds reqs true exhausted works more = tt
      rounds reqs false true works more = tt
      rounds reqs false false true more = (refl, more refl)
      rounds reqs false false false more = tt

  step_retry : (s : Fetcher) (i : Item) → IsFailure i → OneMoreRetry s (step c s i)
  unfolding step
  step_retry s (response alive r) f = absurd f
  step_retry s (rpc_error works) f = failed_round_retry s works
  step_retry s (stream_ended works) f = failed_round_retry s works
  step_retry s (timed_out works) f = failed_round_retry s works

  stopped_stays :
      (status : Status) (items : List Item)
      → HasStopped status
      → HasStopped (run_from c status items)
  unfolding run_from
  stopped_stays status [] h = h
  stopped_stays (running s) (i ∷ items) h = absurd h
  stopped_stays (finished s) (i ∷ items) h = tt
  stopped_stays panicked (i ∷ items) h = tt

  failures_from :
      (s : Fetcher) (items : List Item)
      → All IsFailure items
      → reconnection_max_retries < s.reconnection_retries + length items
      → s.reconnection_retries ≤ reconnection_max_retries
      → HasStopped (run_from c (running s) items)
  unfolding run_from
  failures_from s [] fail more few = omega arith
  failures_from s (i ∷ items) fail more few =
      next (step c s i) (step_retry s i fail.0) (λ s'. failures_from s' items fail.1)
    where
      next :
          (status : Status)
          → OneMoreRetry s status
          → ((s' : Fetcher)
              → reconnection_max_retries < s'.reconnection_retries + length items
              → s'.reconnection_retries ≤ reconnection_max_retries
              → HasStopped (run_from c (running s') items))
          → HasStopped (run_from c status items)
      next (running s') h ih = ih s' (omega (arith, h.0)) (omega (arith, h.0, h.1))
      next (finished s') h ih = stopped_stays (finished s') items tt
      next panicked h ih = stopped_stays panicked items tt

  -- A loop that has counted `reconnection_retries`, five at most, stops, by a panic or at its end, when
  -- the rounds that follow bring errors, ends of the stream and timeouts only, and are more than the
  -- retries that are left.
  pub failures_stop :
      (s : Fetcher) (items : List Item)
      → All IsFailure items
      → s.reconnection_retries ≤ reconnection_max_retries
      → reconnection_max_retries < s.reconnection_retries + length items
      → HasStopped (run_from c (running s) items)
  failures_stop s items fail few more = failures_from s items fail more few
