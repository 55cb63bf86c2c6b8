-- ===== src/Worker/Returns.antt =====
-- When the tasks of rust/processor/src/worker.rs do not panic.
use aptos_indexer_processors.Prelude.{ℕ, ◌≡◌, Option, some, done, nat_eq}
use aptos_indexer_processors.Prelude.Int.{ℤ}
use aptos_indexer_processors.Protos.{Timestamp}
use aptos_indexer_processors.Util.Timestamp.{parse_timestamp}
use aptos_indexer_processors.GapDetector.{ProcessingResult}
use aptos_indexer_processors.GrpcStream.Response.{TransactionsPbResponse}
use aptos_indexer_processors.Worker.{Processor, process_txns}

module _ {D : Type 0} (from_timestamp_opt : ℤ → ℕ → Option D) (process : Processor)
    (chain : ℕ) where
  abbrev pub Parses : Timestamp → Type 0
  Parses t = (d : D) × (parse_timestamp from_timestamp_opt t ≡ done d)

  -- A message of the expected chain with both timestamps, of times that parse, whose transactions the
  -- processor takes without an error.
  pub record IsSound (pb : TransactionsPbResponse) : Type 0 where
    pub start_at : Timestamp
    pub start_there : pb.start_txn_timestamp ≡ some start_at
    pub start_parses : Parses start_at
    pub end_at : Timestamp
    pub end_there : pb.end_txn_timestamp ≡ some end_at
    pub end_parses : Parses end_at
    pub same_chain : pb.chain_id ≡ chain
    pub result : ProcessingResult
    pub processed : process_txns process chain pb pb.transactions ≡ some result
