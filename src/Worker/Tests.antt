-- ===== src/Worker/Tests.antt =====
-- The workers on a fetcher's two messages, reported in the other order, and the theorems there.
use aptos_indexer_processors.Prelude.{
  ℕ, ◌≡◌, ◌⊎◌, refl, Option, none, some, done, List, [], ◌∷◌, ◌==◌, nat_eq, arith, length, concat,
}
use aptos_indexer_processors.Prelude.Int.{ℤ, pos}
use aptos_indexer_processors.Prelude.Chunks.{retain}
use aptos_indexer_processors.Protos.{Timestamp, Transaction}
use aptos_indexer_processors.Util.Timestamp.{parse_timestamp, clamp}
use aptos_indexer_processors.GapDetector.{ProcessingResult, new, run}
use aptos_indexer_processors.GrpcStream.Response.{TransactionsPbResponse, Header}
use aptos_indexer_processors.GrpcStream.Fetcher.{Settings, Fetcher}
use aptos_indexer_processors.GrpcStream.Fetcher.Invariant.{Inv}
use aptos_indexer_processors.StatusTracker.{as_u64}
use aptos_indexer_processors.Worker.{
  Processor, launch_processor_task, process_message, process_checked, do_processor, process_txns,
  skipped_result, num_processed, parse_some, check_or_update_chain_id, add_chain_id,
}
use aptos_indexer_processors.Worker.Pipeline.{KeepsVersions, pipeline_reaches_end}
use aptos_indexer_processors.Worker.Chain.{check_or_update_chain_id_lem}

abbrev midnight : Timestamp
midnight = record { seconds = pos 0; nanos = pos 0 }

-- A clock that keeps the seconds.
abbrev clock : ℤ → ℕ → Option ℤ
clock s n = some s

-- A processor that stores nothing.
abbrev monitoring : Processor
monitoring txns s e chain =
    some (record { start_version = s; end_version = e; last_transaction_timestamp = none })

monitoring-KeepsVersions : KeepsVersions monitoring
monitoring-KeepsVersions txns s e c r made =
    let same : record { start_version = s; end_version = e; last_transaction_timestamp = none }
        ≡ r =
      cc in
    rw (← same) (refl, refl)

abbrev txn : ℕ → Transaction
txn v = record {
  version = v;
  epoch = 1;
  block_height = 1;
  timestamp = some midnight;
  info = none;
  transaction_type = 4;
  txn_data = none;
}

abbrev message : ℕ → ℕ → List Transaction → TransactionsPbResponse
message s e txns = record {
  transactions = txns;
  chain_id = 1;
  start_version = s;
  end_version = e;
  start_txn_timestamp = some midnight;
  end_txn_timestamp = some midnight;
  size_in_bytes = 90;
}

abbrev header : ℕ → ℕ → Header
header s e = record {
  start_version = s;
  end_version = e;
  start_txn_timestamp = some midnight;
  end_txn_timestamp = some midnight;
  chain_id = 1;
}

abbrev settings : Settings
settings = record {
  starting_version = 10;
  request_ending_version = none;
  include = λ t. t.version == 10;
  pb_channel_txn_chunk_size = 100;
  from_timestamp_opt = λ s n. some [];
}

abbrev fetcher : Fetcher
fetcher = record {
  next_version_to_fetch = 13;
  reconnection_retries = 0;
  last_fetched_version = pos 12;
  sent = (message 10 11 (txn 10 ∷ []) ∷ []) ∷ (message 12 12 [] ∷ []) ∷ [];
  requests = [];
}

abbrev txns : List Transaction
txns = txn 10 ∷ txn 11 ∷ txn 12 ∷ []

fetcher-Inv : Inv settings txns fetcher
unfolding retain
fetcher-Inv = record {
  small = omega arith;
  last_meets = refl;
  headers = header 10 11 ∷ header 12 12 ∷ [];
  groups = (
    omega arith,
    ((refl, refl, refl, omega arith), tt),
    (omega arith, ((refl, refl, refl, omega arith), tt), tt),
  );
  no_gap = (refl, omega arith, (refl, omega arith, refl));
  delivered = refl;
}

abbrev result : ℕ → ℕ → Option Timestamp → ProcessingResult
result s e at = record { start_version = s; end_version = e; last_transaction_timestamp = at }

-- A message of which nothing has passed the filter is counted as one transaction.
abbrev outcomes : List (ProcessingResult × ℕ)
outcomes = (result 10 11 none, 1) ∷ (result 12 12 (some midnight), 1) ∷ []

task_run : launch_processor_task clock monitoring 1 (concat fetcher.sent) ≡ done outcomes
unfolding launch_processor_task process_message process_checked do_processor process_txns
    skipped_result num_processed parse_some parse_timestamp clamp
task_run = refl

abbrev arrived : List ProcessingResult
arrived = result 12 12 (some midnight) ∷ result 10 11 none ∷ []

pipeline_reaches_end_example :
    ((run (new 10) arrived).next_version_to_process ≡ 13)
    × (length (run (new 10) arrived).seen_versions ≡ 0)
pipeline_reaches_end_example =
    pipeline_reaches_end clock monitoring 1 settings txns fetcher outcomes arrived
      monitoring-KeepsVersions fetcher-Inv (refl, (refl, tt)) task_run
      (λ r. (λ m. ground arith, λ m. ground arith)) (λ m. ground arith, (λ m. ground arith, tt))

abbrev seven : Option ℤ
seven = some (pos 7)

abbrev no_chain : Option ℤ
no_chain = none

abbrev one_chain : ℤ → Option ℤ → Option (Option ℤ)
one_chain id row = some (some id)

first_chain_id : check_or_update_chain_id (λ row. row) one_chain (pos 7) no_chain ≡ done (7, seven)
unfolding check_or_update_chain_id add_chain_id
first_chain_id = refl

check_or_update_chain_id_lem_example :
    (seven ≡ seven) × ((no_chain ≡ none) ⊎ (no_chain ≡ seven)) × (7 ≡ as_u64 (pos 7))
check_or_update_chain_id_lem_example =
    check_or_update_chain_id_lem (λ row. row) one_chain (pos 7) no_chain seven 7
      (λ id db db' e made. cc) first_chain_id
