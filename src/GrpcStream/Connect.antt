-- ===== src/GrpcStream/Connect.antt =====
-- `get_stream` and `get_chain_id` of rust/processor/src/grpc_stream.rs. A call under `timeout` times
-- out, returns an error, or returns a value; the n-th attempt's answer is a function of n.
pub mod Retries
use aptos_indexer_processors.Prelude.{
  ℕ, zero, suc, ◌+◌, ◌-◌, ◌*◌, Option, none, some, Outcome, done, panic, ◌>>=◌, unwrap, u64,
  u64_mod, leb, if◌then◌else◌, Text, List, [], ◌∷◌, ◌++◌, bytes,
}
use mathlib.Core.Option
use aptos_indexer_processors.Protos.{GetTransactionsRequest, TransactionsResponse}

abbrev pub reconnection_max_retries : ℕ
reconnection_max_retries = 5

pub data Attempt (A : Type 0) : Type 0 where
  timed_out refused : Attempt A
  answered : A → Attempt A

-- Either `loop` of `get_stream`, with the `expect` and the `match` behind it: a timeout is tried again
-- until the count of retries reaches the maximum, an error is not. Fuel is the number of rounds: the
-- theorem of Retries holds for all fuel from five on, so it is the count that ends the loop.
unfoldable pub retry : {A : Type 0} → ℕ → (ℕ → Attempt A) → ℕ → Outcome A
retry zero attempt connect_retries = panic
retry (suc fuel) attempt connect_retries = elim (attempt connect_retries) [
  | answered a ↦ done a
  | refused ↦ panic
  | timed_out ↦
      let again = retry fuel attempt (connect_retries + 1) in
      if leb reconnection_max_retries (connect_retries + 1) then panic else again
]

-- More rounds than either loop makes.
abbrev pub rounds : ℕ
rounds = reconnection_max_retries + 1

-- `(v as i64 - starting_version as i64 + 1) as u64`
unfoldable pub transactions_count : ℕ → ℕ → ℕ
transactions_count starting_version ending_version =
    u64 (ending_version + u64_mod - starting_version + 1)

-- The message of `grpc_request_builder`; the two headers carry the token and the name.
unfoldable pub grpc_request_builder : ℕ → Option ℕ → GetTransactionsRequest
grpc_request_builder starting_version count = record {
  starting_version = some starting_version;
  transactions_count = count;
}

unfoldable pub stream_request : ℕ → Option ℕ → GetTransactionsRequest
unfolding grpc_request_builder transactions_count
stream_request starting_version ending_version =
    grpc_request_builder starting_version
      (Option.map (transactions_count starting_version) ending_version)

module _ {Client Stream : Type 0} where
  -- `connect n` answers the n-th connection attempt, `get_transactions c r n` the n-th request.
  pub get_stream :
      (ℕ → Attempt Client)
      → (Client → GetTransactionsRequest → ℕ → Attempt Stream)
      → ℕ
      → Option ℕ
      → Outcome Stream
  unfolding retry stream_request
  get_stream connect get_transactions starting_version ending_version = do
    rpc_client ← retry rounds connect 0
    retry rounds (get_transactions rpc_client (stream_request starting_version ending_version)) 0

  -- The first message of the stream: none where it ended, `refused` where it is an error.
  pub get_chain_id :
      (ℕ → Attempt Client)
      → (Client → GetTransactionsRequest → ℕ → Attempt Stream)
      → (Stream → Option (Attempt TransactionsResponse))
      → Outcome ℕ
  unfolding get_stream
  get_chain_id connect get_transactions next = do
    stream ← get_stream connect get_transactions 1 (some 2)
    message ← unwrap (next stream)
    elim message [ answered r ↦ unwrap r.chain_id | refused ↦ panic | timed_out ↦ panic ]
