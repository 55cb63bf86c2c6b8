-- ===== src/Worker.antt =====
-- The tasks of rust/processor/src/worker.rs: `do_processor`, the loop of `launch_processor_task` over the
-- messages of the channel, and `check_or_update_chain_id`. The processor's own work and the table
-- `ledger_infos` are parameters; logs, gauges and the moving average, which only feeds logs, are left
-- out, but for what they panic on. The channel to the gap detector is open.
pub mod Pipeline
pub mod Chain
pub mod Returns
mod Tests
use aptos_indexer_processors.Prelude.{
  ℕ, ◌+◌, ◌-◌, Option, none, some, Outcome, done, panic, ◌>>=◌, unwrap, List, [], ◌∷◌, Bool, true,
  false, u64, u64_mod, ◌==◌, nat_eq, if◌then◌else◌,
}
use aptos_indexer_processors.Prelude.Int.{ℤ}
use aptos_indexer_processors.Protos.{Timestamp, Transaction}
use aptos_indexer_processors.Util.Timestamp.{parse_timestamp}
use aptos_indexer_processors.GapDetector.{ProcessingResult}
use aptos_indexer_processors.GrpcStream.Response.{TransactionsPbResponse, first, last, as_i64, eq_ℤ}
use aptos_indexer_processors.StatusTracker.{as_u64}

-- `process_transactions` of a processor: none where it returns an error.
abbrev pub Processor : Type 0
Processor = List Transaction → ℕ → ℕ → Option ℕ → Option ProcessingResult

-- The versions and the timestamp of a message, for a batch of which nothing has passed the filter.
pub skipped_result : TransactionsPbResponse → ProcessingResult
skipped_result pb = record {
  start_version = pb.start_version;
  end_version = pb.end_version;
  last_transaction_timestamp = pb.end_txn_timestamp;
}

-- `do_processor` for the transactions of the message.
pub process_txns :
    Processor → ℕ → TransactionsPbResponse → List Transaction → Option ProcessingResult
unfolding skipped_result
process_txns process db_chain_id pb [] = some (skipped_result pb)
process_txns process db_chain_id pb (t ∷ ts) =
    process (t ∷ ts) pb.start_version pb.end_version (some db_chain_id)

pub do_processor : Processor → ℕ → TransactionsPbResponse → Option ProcessingResult
unfolding process_txns
do_processor process db_chain_id pb = process_txns process db_chain_id pb pb.transactions

-- `map(|t| t.version).unwrap_or_default()`
abbrev pub version_or_default : Option Transaction → ℕ
version_or_default none = 0
version_or_default (some t) = t.version

-- `(last_txn_version - first_txn_version) + 1`
pub num_processed : List Transaction → ℕ
num_processed txns =
    u64 (version_or_default (last txns) + u64_mod - version_or_default (first txns) + 1)

module _ {D : Type 0} (from_timestamp_opt : ℤ → ℕ → Option D) where
  -- `timestamp_to_iso` of a timestamp that is there.
  pub parse_some : Option Timestamp → Outcome (Option D)
  parse_some none = done none
  parse_some (some t) = do d ← parse_timestamp from_timestamp_opt t; done (some d)

  pub process_checked : Processor → ℕ → TransactionsPbResponse → Outcome (ProcessingResult × ℕ)
  unfolding do_processor num_processed
  process_checked process chain_id pb = do
    processing_result ← unwrap (do_processor process chain_id pb)
    end_txn_timestamp ← unwrap pb.end_txn_timestamp
    done (processing_result, num_processed pb.transactions)

  -- A round of the loop that has a message: what goes to the gap detector, and the number of
  -- transactions that is counted.
  pub process_message : Processor → ℕ → TransactionsPbResponse → Outcome (ProcessingResult × ℕ)
  unfolding parse_some process_checked
  process_message process chain_id pb = do
    start_txn_timestamp_iso ← parse_some pb.start_txn_timestamp
    end_txn_timestamp_iso ← parse_some pb.end_txn_timestamp
    let checked = process_checked process chain_id pb in
        if pb.chain_id == chain_id then checked else panic

  -- The loop, until the channel is closed.
  pub launch_processor_task :
      Processor → ℕ → List TransactionsPbResponse → Outcome (List (ProcessingResult × ℕ))
  unfolding process_message
  launch_processor_task process chain_id [] = done []
  launch_processor_task process chain_id (pb ∷ pbs) = do
    r ← process_message process chain_id pb
    rs ← launch_processor_task process chain_id pbs
    done (r ∷ rs)

-- The chain of the stream against the one in the database; the `unwrap` behind it panics on an error.
-- `insert` is the insertion of a row, none where the database reports an error.
module _ {Db : Type 0} (get : Db → Option ℤ) (insert : ℤ → Db → Option Db) where
  pub add_chain_id : ℤ → Db → Outcome (ℕ × Db)
  add_chain_id grpc_chain_id db = do
    db' ← unwrap (insert grpc_chain_id db)
    done (as_u64 grpc_chain_id, db')

  pub check_or_update_chain_id : ℤ → Db → Outcome (ℕ × Db)
  unfolding add_chain_id
  check_or_update_chain_id grpc_chain_id db = elim (get db) [
    | some chain_id ↦ if eq_ℤ chain_id grpc_chain_id then done (as_u64 chain_id, db) else panic
    | none ↦ add_chain_id grpc_chain_id db
  ]
