-- ===== src/GrpcStream/Fetcher/Invariant.antt =====
-- What the fetcher of rust/processor/src/grpc_stream.rs has sent: the versions without a gap, and every
-- transaction that passes the filter, once and in order.
use aptos_indexer_processors.Prelude.{
  ℕ, zero, suc, ◌+◌, ◌^◌, ◌≤◌, ◌<◌, ◌≡◌, ◌∙◌, ap, sym, refl, Outcome, done, panic, List, [], ◌∷◌,
  ◌++◌, map, arith, Bool, true, false, length, concat, All, u64, nat_beq, leb, if◌then◌else◌,
}
use mathlib.Core.List.{append-nil, append_assoc}
use aptos_indexer_processors.Prelude.Int.{ℤ, pos}
use aptos_indexer_processors.Prelude.Chunks.{retain, retain-append}
use aptos_indexer_processors.Protos.{Transaction, TransactionsResponse}
use aptos_indexer_processors.GapDetector.{ProcessingResult}
use aptos_indexer_processors.GapDetector.Plan.{Tiles}
use aptos_indexer_processors.GrpcStream.Connect.{reconnection_max_retries}
use aptos_indexer_processors.GrpcStream.Response.{
  TransactionsPbResponse, Header, header, handle_response, eq_ℤ, plus_one, minus_one, as_i64,
}
use aptos_indexer_processors.GrpcStream.Response.Delivery.{
  payload, Carries, handle_response-Delivers,
}
use aptos_indexer_processors.GrpcStream.Fetcher.{
  Settings, Fetcher, Item, response, rpc_error, stream_ended, timed_out, Status, running, finished,
  panicked, init, accept, is_end, reconnect, received_round, failed_round, step, run_from, run,
}

-- The service's promise for a response: versions in order, that an `i64` can count on from.
abbrev pub InRange : TransactionsResponse → Type 0
InRange r =
    (h : Header)
    → header r ≡ done h
    → (h.start_version ≤ h.end_version) × (h.end_version + 1 < 2 ^ 63)

abbrev pub ItemInRange : Item → Type 0
ItemInRange (response alive r) = InRange r
ItemInRange (rpc_error works) = Unit
ItemInRange (stream_ended works) = Unit
ItemInRange (timed_out works) = Unit

abbrev pub item_transactions : Item → List Transaction
item_transactions (response alive r) = r.transactions
item_transactions (rpc_error works) = []
item_transactions (stream_ended works) = []
item_transactions (timed_out works) = []

-- The transactions that the loop has received before it stopped.
pub received : Settings → Status → List Item → List Transaction
received c status [] = []
received c (finished s) (i ∷ items) = []
received c panicked (i ∷ items) = []
received c (running s) (i ∷ items) = item_transactions i ++ received c (step c s i) items

-- What the gap detector hears of a message with this header.
abbrev pub result_of : Header → ProcessingResult
result_of h = record {
  start_version = h.start_version;
  end_version = h.end_version;
  last_transaction_timestamp = h.end_txn_timestamp;
}

-- Each group of messages carries one header.
abbrev pub Groups : ℕ → List Header → List (List TransactionsPbResponse) → Type 0
Groups n [] [] = Unit
Groups n (h ∷ hs) (g ∷ gs) = (1 ≤ length g) × All (Carries h n) g × Groups n hs gs
Groups n _ _ = ⊥

abbrev pub Holds : (Fetcher → Type 0) → Status → Type 0
Holds P (running s) = P s
Holds P (finished s) = P s
Holds P panicked = Unit

Holds-if :
    (P : Fetcher → Type 0) (b : Bool) (x y : Status)
    → Holds P x
    → Holds P y
    → Holds P (if b then x else y)
Holds-if P true x y hx hy = hx
Holds-if P false x y hx hy = hy

Groups-append :
    (n : ℕ) (hs : List Header) (gs : List (List TransactionsPbResponse)) (h : Header)
    (g : List TransactionsPbResponse)
    → Groups n hs gs
    → 1 ≤ length g
    → All (Carries h n) g
    → Groups n (hs ++ h ∷ []) (gs ++ g ∷ [])
Groups-append n [] [] h g gr one carries = (one, carries, tt)
Groups-append n [] (x ∷ gs) h g gr one carries = absurd gr
Groups-append n (k ∷ hs) [] h g gr one carries = absurd gr
Groups-append n (k ∷ hs) (x ∷ gs) h g gr one carries =
    (gr.0, gr.1, Groups-append n hs gs h g gr.2 one carries)

Tiles-append :
    (s m : ℕ) (hs : List Header) (h : Header)
    → Tiles s (map result_of hs) m
    → h.start_version ≡ m
    → h.start_version ≤ h.end_version
    → Tiles s (map result_of (hs ++ h ∷ [])) (h.end_version + 1)
Tiles-append s m [] h t e le = (omega arith, omega arith, refl)
Tiles-append s m (k ∷ hs) h t e le = (t.0, t.1, Tiles-append (k.end_version + 1) m hs h t.2 e le)

plus-minus_pos : (n : ℕ) → n < 2 ^ 63 → plus_one (minus_one (pos n)) ≡ pos n
plus-minus_pos zero h = refl
plus-minus_pos (suc n) h = ground (arith, h)

pub plus-minus_one : (n : ℕ) → n < 2 ^ 63 → plus_one (minus_one (as_i64 n)) ≡ pos n
plus-minus_one n h =
    let in_range : as_i64 n ≡ pos n = ground (arith, h) in rw in_range (plus-minus_pos n h)

payload-append :
    (xs ys : List TransactionsPbResponse) → payload (xs ++ ys) ≡ payload xs ++ payload ys
payload-append [] ys = refl
payload-append (x ∷ xs) ys =
    rw (payload-append xs ys) (sym (append_assoc x.transactions (payload xs) (payload ys)))

payload-concat :
    (gs : List (List TransactionsPbResponse)) (g : List TransactionsPbResponse)
    → payload (concat (gs ++ g ∷ [])) ≡ payload (concat gs) ++ payload g
payload-concat [] g = ap payload (append-nil g)
payload-concat (x ∷ gs) g =
    payload-append x (concat (gs ++ g ∷ []))
    ∙ ap (λ r. payload x ++ r) (payload-concat gs g)
    ∙ sym (append_assoc (payload x) (payload (concat gs)) (payload g))
    ∙ ap (λ r. r ++ payload g) (sym (payload-append x (concat gs)))

module _ (c : Settings) where
  -- The state after the transactions `txns` have been received.
  pub record Inv (txns : List Transaction) (s : Fetcher) : Type 0 where
    pub small : s.next_version_to_fetch < 2 ^ 63
    pub last_meets : plus_one s.last_fetched_version ≡ pos s.next_version_to_fetch
    pub headers : List Header
    pub groups : Groups c.pb_channel_txn_chunk_size headers s.sent
    pub no_gap : Tiles c.starting_version (map result_of headers) s.next_version_to_fetch
    pub delivered : payload (concat s.sent) ≡ retain c.include txns

  eq_start :
      (l : ℤ) (n v : ℕ)
      → plus_one l ≡ pos n
      → n < 2 ^ 63
      → v < 2 ^ 63
      → eq_ℤ (plus_one l) (as_i64 v) ≡ true
      → v ≡ n
  eq_start l n v e small_n small_v h =
      let small_i64 : as_i64 v ≡ pos v = ground arith in
      let same : nat_beq n v ≡ true = rw (e, small_i64) at h in ground arith

  accept-Inv :
      (txns : List Transaction) (s : Fetcher) (r : TransactionsResponse) (h : Header)
      (ms : List TransactionsPbResponse)
      → Inv txns s
      → InRange r
      → handle_response c.from_timestamp_opt c.include c.pb_channel_txn_chunk_size
          s.last_fetched_version r
        ≡ done (h, ms)
      → Inv (txns ++ r.transactions) (accept s (h, ms))
  unfolding accept
  accept-Inv txns s r h ms inv ok e =
      let (at, meets, delivers) =
        handle_response-Delivers c.from_timestamp_opt c.include c.pb_channel_txn_chunk_size
          s.last_fetched_version r h ms e in
      let (one, carries, same) = delivers in
      let (le, fits) = ok h at in
      let start =
        eq_start s.last_fetched_version s.next_version_to_fetch h.start_version inv.last_meets
          inv.small (omega arith) meets in
      let exact : u64 (h.end_version + 1) ≡ h.end_version + 1 = omega arith in
      record {
        small = rw exact fits;
        last_meets = rw exact (ground arith);
        headers = inv.headers ++ h ∷ [];
        groups =
            Groups-append c.pb_channel_txn_chunk_size inv.headers s.sent h ms inv.groups one
              carries;
        no_gap = rw exact (
            Tiles-append c.starting_version s.next_version_to_fetch inv.headers h inv.no_gap start
              le);
        delivered =
            payload-concat s.sent ms
            ∙ ap (λ p. p ++ payload ms) inv.delivered
            ∙ ap (λ p. retain c.include txns ++ p) same
            ∙ sym (retain-append c.include txns r.transactions);
      }

  -- A round without a response leaves what has been sent and where to go on.
  reconnect-Inv :
      (txns : List Transaction) (s : Fetcher) (works : Bool)
      → Inv txns s
      → Holds (Inv txns) (reconnect c s works)
  unfolding reconnect
  reconnect-Inv txns s works inv =
      Holds-if (Inv txns) (leb reconnection_max_retries s.reconnection_retries) panicked _ tt (
        Holds-if (Inv txns) works _ panicked
          (record {
            small = inv.small;
            last_meets = inv.last_meets;
            headers = inv.headers;
            groups = inv.groups;
            no_gap = inv.no_gap;
            delivered = inv.delivered;
          })
          tt)

  failed_round-Inv :
      (txns : List Transaction) (s : Fetcher) (works : Bool)
      → Inv txns s
      → Holds (Inv (txns ++ [])) (failed_round c s works)
  unfolding failed_round
  failed_round-Inv txns s works inv = rw (append-nil txns) (
      Holds-if (Inv txns) (is_end c s) (finished s) (reconnect c s works) inv
        (reconnect-Inv txns s works inv))

  received_round-Inv :
      (txns : List Transaction) (s : Fetcher) (alive : Bool) (r : TransactionsResponse)
      (o : Outcome (Header × List TransactionsPbResponse))
      → Inv txns s
      → InRange r
      → handle_response c.from_timestamp_opt c.include c.pb_channel_txn_chunk_size
          s.last_fetched_version r
        ≡ o
      → Holds (Inv (txns ++ r.transactions)) (received_round c s alive o)
  unfolding received_round
  received_round-Inv txns s alive r panic inv ok e = tt
  received_round-Inv txns s alive r (done (h, ms)) inv ok e =
      let P = Inv (txns ++ r.transactions) in
      let s' = accept s (h, ms) in
      let kept = accept-Inv txns s r h ms inv ok e in
      Holds-if P alive _ panicked (Holds-if P (is_end c s') (finished s') (running s') kept kept) tt

  step-Inv :
      (txns : List Transaction) (s : Fetcher) (i : Item)
      → Inv txns s
      → ItemInRange i
      → Holds (Inv (txns ++ item_transactions i)) (step c s i)
  unfolding step
  step-Inv txns s (response alive r) inv ok = received_round-Inv txns s alive r _ inv ok refl
  step-Inv txns s (rpc_error works) inv ok = failed_round-Inv txns s works inv
  step-Inv txns s (stream_ended works) inv ok = failed_round-Inv txns s works inv
  step-Inv txns s (timed_out works) inv ok = failed_round-Inv txns s works inv

  run_from-Inv :
      (txns : List Transaction) (status : Status) (items : List Item)
      → Holds (Inv txns) status
      → All ItemInRange items
      → Holds (Inv (txns ++ received c status items)) (run_from c status items)
  unfolding run_from received
  run_from-Inv txns status [] h ok = rw (append-nil txns) h
  run_from-Inv txns (finished s) (i ∷ items) h ok = rw (append-nil txns) h
  run_from-Inv txns panicked (i ∷ items) h ok = tt
  run_from-Inv txns (running s) (i ∷ items) h ok =
      rw (← append_assoc txns (item_transactions i) (received c (step c s i) items)) (
        run_from-Inv (txns ++ item_transactions i) (step c s i) items (step-Inv txns s i h ok.0)
          ok.1)

  -- From a starting version in range, and responses with their versions in order and in range: whatever
  -- else the stream does, a loop that has not panicked has sent groups of messages whose version ranges
  -- tile the versions from the starting one up to the next one to fetch, and their transactions are the
  -- received ones that pass the filter, each once and in order.
  pub fetcher_delivers :
      (items : List Item)
      → c.starting_version < 2 ^ 63
      → All ItemInRange items
      → Holds (Inv (received c (running (init c)) items)) (run c items)
  unfolding run init retain
  fetcher_delivers items small ok = run_from-Inv [] (running (init c)) items begin ok
    where
      begin : Inv [] (init c)
      begin = record {
        small = small;
        last_meets = plus-minus_one c.starting_version small;
        headers = [];
        groups = tt;
        no_gap = refl;
        delivered = refl;
      }
