-- ===== src/GrpcStream/Fetcher.antt =====
-- The loop of `create_fetcher_loop` (rust/processor/src/grpc_stream.rs) as a step function over what
-- the stream yields. The messages of a response are kept together in `sent`; `requests` records the
-- reconnections. When the ending version is reached the loop waits for the channel to be empty and stops.
pub mod Invariant
pub mod Retries
pub mod Progress
use aptos_indexer_processors.Prelude.{
  ℕ, ◌+◌, ◌-◌, ◌^◌, Option, none, some, Outcome, done, panic, List, [], ◌∷◌, ◌++◌, Bool, true,
  false, u64, ltb, leb, if◌then◌else◌, Text,
}
use aptos_indexer_processors.Prelude.Int.{ℤ}
use aptos_indexer_processors.Protos.{Transaction, TransactionsResponse, GetTransactionsRequest}
use aptos_indexer_processors.GrpcStream.Connect.{reconnection_max_retries, stream_request}
use aptos_indexer_processors.GrpcStream.Response.{
  TransactionsPbResponse, Header, as_i64, minus_one, handle_response,
}

pub record Settings : Type 0 where
  pub starting_version : ℕ
  pub request_ending_version : Option ℕ
  pub include : Transaction → Bool
  pub pb_channel_txn_chunk_size : ℕ
  pub from_timestamp_opt : ℤ → ℕ → Option Text

pub record Fetcher : Type 0 where
  pub next_version_to_fetch : ℕ
  pub reconnection_retries : ℕ
  pub last_fetched_version : ℤ
  pub sent : List (List TransactionsPbResponse)
  pub requests : List GetTransactionsRequest

-- What `resp_stream.next()` under its timeout gives: a response, where the channel takes its messages or
-- is closed; or an error of the stream, its end or the timeout, after which a reconnection works or not.
pub data Item : Type 0 where
  response : Bool → TransactionsResponse → Item
  rpc_error stream_ended timed_out : Bool → Item

pub data Status : Type 0 where
  running finished : Fetcher → Status
  panicked : Status

-- The state in front of the loop, once the first stream is open.
unfoldable pub init : Settings → Fetcher
init c = record {
  next_version_to_fetch = c.starting_version;
  reconnection_retries = 0;
  last_fetched_version = minus_one (as_i64 c.starting_version);
  sent = [];
  requests = [];
}

-- The state after a response whose messages are in the channel.
unfoldable pub accept : Fetcher → Header × List TransactionsPbResponse → Fetcher
accept s (h, messages) = record s {
  next_version_to_fetch = u64 (h.end_version + 1);
  reconnection_retries = 0;
  last_fetched_version = as_i64 h.end_version;
  sent = s.sent ++ messages ∷ [];
}

unfoldable pub is_end : Settings → Fetcher → Bool
is_end c s = elim c.request_ending_version [
  | none ↦ false
  | some ending_version ↦ ltb ending_version s.next_version_to_fetch
]

-- The state after `get_stream` is called again.
unfoldable pub reconnect : Settings → Fetcher → Bool → Status
reconnect c s works =
    if leb reconnection_max_retries s.reconnection_retries
    then panicked
    else if works
    then running (record s {
      reconnection_retries = s.reconnection_retries + 1;
      requests = s.requests ++ stream_request s.next_version_to_fetch c.request_ending_version ∷ [];
    })
    else panicked

-- The end of a round in which nothing was received.
unfoldable pub failed_round : Settings → Fetcher → Bool → Status
failed_round c s works = if is_end c s then finished s else reconnect c s works

-- The end of a round in which a response was handled; sending into a closed channel panics.
unfoldable pub received_round :
    Settings → Fetcher → Bool → Outcome (Header × List TransactionsPbResponse) → Status
received_round c s alive panic = panicked
received_round c s alive (done accepted) =
    if alive
    then (if is_end c (accept s accepted)
        then finished (accept s accepted)
        else running (accept s accepted))
    else panicked

unfoldable pub step : Settings → Fetcher → Item → Status
step c s (response alive r) = received_round c s alive (
    handle_response c.from_timestamp_opt c.include c.pb_channel_txn_chunk_size
      s.last_fetched_version r)
step c s (rpc_error works) = failed_round c s works
step c s (stream_ended works) = failed_round c s works
step c s (timed_out works) = failed_round c s works

unfoldable pub run_from : Settings → Status → List Item → Status
run_from c status [] = status
run_from c (finished s) (i ∷ items) = finished s
run_from c panicked (i ∷ items) = panicked
run_from c (running s) (i ∷ items) = run_from c (step c s i) items

unfoldable pub run : Settings → List Item → Status
unfolding run_from init
run c items = run_from c (running (init c)) items
