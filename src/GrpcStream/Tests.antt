-- ===== src/GrpcStream/Tests.antt =====
-- A stream of two responses with a reconnection between them, and the theorems at these values.
use aptos_indexer_processors.Prelude.{
  ℕ, suc, zero, ◌≡◌, ◌↔◌, refl, done-injective, none, some, done, List, [], ◌∷◌, Bool, true, arith,
  length, Option, Text,
}
use aptos_indexer_processors.Prelude.Int.{ℤ, pos}
use aptos_indexer_processors.Prelude.Chunks.{retain, chunks}
use aptos_indexer_processors.Protos.{Transaction, TransactionsResponse}
use aptos_indexer_processors.GrpcStream.Connect.{
  Attempt, retry, stream_request, transactions_count, grpc_request_builder,
}
use aptos_indexer_processors.GrpcStream.Connect.Retries.{AnsweredFrom, retry_done_iff}
use aptos_indexer_processors.GrpcStream.Response.{
  TransactionsPbResponse, Header, header, message, messages, check_and_split, iso_or_default,
  handle_response, eq_ℤ, plus_one, as_i64,
}
use aptos_indexer_processors.GrpcStream.Response.Delivery.{
  Delivers, handle_response_returns, handle_response-Delivers,
}
use aptos_indexer_processors.GrpcStream.Fetcher.{
  Settings, Item, response, rpc_error, stream_ended, Status, running, finished, init, accept,
  is_end, reconnect, received_round, failed_round, step, run_from, run,
}
use aptos_indexer_processors.GrpcStream.Fetcher.Invariant.{Inv, Holds, received, fetcher_delivers}
use aptos_indexer_processors.GrpcStream.Fetcher.Progress.{NotPanicked, run-NotPanicked}
use aptos_indexer_processors.GrpcStream.Fetcher.Retries.{
  ReachedEnd, HasStopped, finished_past_end, failures_stop,
}

abbrev third_answers : ℕ → Attempt ℕ
third_answers zero = Attempt.timed_out
third_answers (suc zero) = Attempt.timed_out
third_answers (suc (suc n)) = Attempt.answered 7

retry_third : retry 5 third_answers 0 ≡ done 7
unfolding retry
retry_third = refl

retry_done_iff_example : (retry 8 third_answers 0 ≡ done 7) ↔ AnsweredFrom third_answers 0 7
retry_done_iff_example = retry_done_iff third_answers 8 7 (omega arith)

abbrev txn : ℕ → Transaction
txn v = record {
  version = v;
  epoch = 1;
  block_height = 1;
  timestamp = none;
  info = none;
  transaction_type = 4;
  txn_data = none;
}

abbrev five : TransactionsResponse
five = record {
  transactions = txn 10 ∷ txn 11 ∷ txn 12 ∷ txn 13 ∷ txn 14 ∷ [];
  chain_id = some 1;
  encoded_len = 500;
}

abbrev two : TransactionsResponse
two = record { transactions = txn 15 ∷ txn 16 ∷ []; chain_id = some 1; encoded_len = 200 }

abbrev keep_all : Transaction → Bool
keep_all t = true

abbrev five_header : Header
five_header = record {
  start_version = 10;
  end_version = 14;
  start_txn_timestamp = none;
  end_txn_timestamp = none;
  chain_id = 1;
}

abbrev piece : ℕ → List Transaction → TransactionsPbResponse
piece size txns = record {
  transactions = txns;
  chain_id = 1;
  start_version = 10;
  end_version = 14;
  start_txn_timestamp = none;
  end_txn_timestamp = none;
  size_in_bytes = size;
}

-- Five transactions in chunks of two.
abbrev pieces : List TransactionsPbResponse
pieces =
    piece 200 (txn 10 ∷ txn 11 ∷ [])
    ∷ piece 200 (txn 12 ∷ txn 13 ∷ [])
    ∷ piece 100 (txn 14 ∷ [])
    ∷ []

-- Every timestamp is a date with the empty text.
abbrev chrono : ℤ → ℕ → Option Text
chrono seconds nanos = some []

handle_five : handle_response chrono keep_all 2 (pos 9) five ≡ done (five_header, pieces)
unfolding handle_response iso_or_default check_and_split header messages message chunks retain
handle_five = refl

handle_response-Delivers_example :
    (header five ≡ done five_header)
    × (eq_ℤ (plus_one (pos 9)) (as_i64 five_header.start_version) ≡ true)
    × Delivers keep_all 2 five.transactions five_header pieces
handle_response-Delivers_example =
    handle_response-Delivers chrono keep_all 2 (pos 9) five five_header pieces handle_five

abbrev settings : Settings
settings = record {
  starting_version = 10;
  request_ending_version = some 16;
  include = keep_all;
  from_timestamp_opt = chrono;
  pb_channel_txn_chunk_size = 2;
}

abbrev two_header : Header
two_header = record {
  start_version = 15;
  end_version = 16;
  start_txn_timestamp = none;
  end_txn_timestamp = none;
  chain_id = 1;
}

abbrev items : List Item
items = response true five ∷ rpc_error true ∷ response true two ∷ []

-- The run ends behind version 16 with one reconnection, which asks for the two versions that are left.
abbrev EndsWell : Status → Type 0
EndsWell (finished s) =
    (s.next_version_to_fetch ≡ 17)
    × (length s.sent ≡ 2)
    × (s.requests ≡ (record { starting_version = some 15; transactions_count = some 2 } ∷ []))
EndsWell _ = ⊥

two_responses_then_end : EndsWell (run settings items)
unfolding run run_from init step received_round failed_round reconnect accept is_end handle_response
    iso_or_default check_and_split header messages message chunks retain stream_request
    transactions_count grpc_request_builder
two_responses_then_end = (refl, refl, refl)

fetcher_delivers_example :
    Holds (Inv settings (received settings (running (init settings)) items)) (run settings items)
unfolding header
fetcher_delivers_example = fetcher_delivers settings items (omega arith) (
  λ h e. let same : five_header ≡ h = done-injective e in rw (← same) (omega arith, omega arith),
  (
    tt,
    (
      λ h e. let same : two_header ≡ h = done-injective e in rw (← same) (omega arith, omega arith),
      tt,
    ),
  ),
)

finished_past_end_example : ReachedEnd settings (run settings items)
finished_past_end_example = finished_past_end settings items

abbrev failures : List Item
failures =
    rpc_error true
    ∷ stream_ended true
    ∷ rpc_error true
    ∷ rpc_error true
    ∷ stream_ended true
    ∷ rpc_error true
    ∷ []

failures_stop_example : HasStopped (run_from settings (running (init settings)) failures)
unfolding init
failures_stop_example =
    failures_stop settings (init settings) failures (tt, (tt, (tt, (tt, (tt, (tt, tt))))))
      (omega arith) (omega arith)

header-five : header five ≡ done five_header
unfolding header
header-five = refl

header-two : header two ≡ done two_header
unfolding header
header-two = refl

handle_response_returns_example :
    (ms : List TransactionsPbResponse) × (handle_response chrono keep_all 2 (pos 9) five
      ≡ done (five_header, ms))
unfolding iso_or_default
handle_response_returns_example =
    handle_response_returns chrono keep_all 2 (pos 9) five five_header (omega arith) header-five
      ([], refl) ([], refl) refl

run-NotPanicked_example : NotPanicked (run settings items)
unfolding iso_or_default
run-NotPanicked_example = run-NotPanicked settings (omega arith) items (omega arith) (
  refl,
  (
    five_header,
    header-five,
    ([], refl),
    ([], refl),
    refl,
    omega arith,
    omega arith,
    (
      refl,
      omega arith,
      (refl, (two_header, header-two, ([], refl), ([], refl), refl, omega arith, omega arith, tt)),
    ),
  ),
)
