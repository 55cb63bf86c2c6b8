-- ===== src/Lib.antt =====
-- A model of the Rust indexer (rust/): a fetcher reads transactions from a gRPC stream and filters
-- them, concurrent workers process its messages, and a gap detector turns their results into the
-- version from which the indexer starts again.
--
-- Prelude, and the modules below it: tests, lists, association maps, signed integers, texts as lists of
-- UTF-8 bytes, chunks, and `Outcome`, the result of code that may panic.
-- Protos: the protobuf messages of the crate aptos_protos, with the fields that are read.
-- GrpcStream (rust/processor/src/grpc_stream.rs): Connect has the retry loops of `get_stream`, the request,
-- and `get_chain_id`; Response has what happens to one response; Fetcher is `create_fetcher_loop` as a step
-- function over what the stream yields, with the messages sent and the reconnections in its state.
-- TransactionFilter (rust/processor/src/transaction_filter.rs): `include`, and its specification in Spec.
-- Worker (rust/processor/src/worker.rs): `do_processor`, the loop of `launch_processor_task`, and
-- `check_or_update_chain_id`. A processor is a parameter; Pipeline states its contract.
-- GapDetector (rust/processor/src/gap_detector.rs): `GapDetector` with `process_versions`, and `run` over
-- the results in the order of their arrival.
-- StatusTracker: the loop around the detector, `update_last_processed_version`
-- (rust/processor/src/processors/mod.rs) and `get_start_version` (rust/processor/src/worker.rs); the table
-- `processor_status` is a record of operations, and Restart states the laws that are relied on.
-- Database (rust/processor/src/utils/database.rs): chunked inserts, the retry with cleaned rows, and the
-- where clause that is appended to an upsert. The database answers each attempt of each chunk anew, in whatever
-- state it then has; a row that cannot be cleaned panics. An upsert loses its clause where the text of its query,
-- bound values included, contains `where`, so Queries/Replay speaks of queries without the word.
-- Events (rust/processor/src/models/events_models/events.rs and
-- rust/processor/src/processors/events_processor.rs): the rows of a batch.
-- Signatures (rust/processor/src/models/user_transactions_models/signatures.rs): Account has the rows for the
-- signature of one account, User those of a whole transaction, its type and its fee payer.
-- Coin (rust/processor/src/processors/coin_processor.rs and rust/processor/src/models/coin_models): Resources has
-- the Move resources and events of coins, Rows the rows for one of them, Activities and Transaction those of
-- a transaction, Batch those of a batch in the order of their keys, Insert the insertion. The hash maps are
-- association lists; sort_by is a sort by insertion.
-- Queries: Upsert has tables and insert queries as values; Tables1 to Tables6 are those of
-- rust/processor/src/schema.rs that the processors insert into, in the order of their names; Accounts, Ans, Coins,
-- Default, Events, FungibleAssets, Objects, Stake, Tokens, TokensV2, Metadata and UserTransactions have the insert
-- queries of the processor of that name (rust/processor/src/processors). Newest has what is assumed of Postgres;
-- Replay is about tables of current rows, Guarded about every query with a where clause.
-- Changes (rust/processor/src/models/default_models): Models and Details have the rows for modules, resources and
-- table items (move_modules.rs, move_resources.rs, move_tables.rs), Rows has write_set_changes.rs.
-- MovingAverage (rust/moving-average/src/lib.rs): the window of values and its sum.
-- Util (rust/processor/src/utils/util.rs): addresses, truncation, null bytes, the entry
-- function of a request, timestamps.
--
-- How the parts meet: Fetcher sends the messages of Response, which use TransactionFilter; Worker turns
-- messages into results; GapDetector reads them; StatusTracker stores what it reports. Coin reads the fee
-- payer from Signatures, and inserts by the queries of Queries through Database.
--
-- Numbers: `u64` values are natural numbers with their wrap-around written out, `i64` values are integers.
-- Fuel: `retry` has more rounds than the loop makes before it gives up, and its theorem holds for every such
-- number; the detector's inner loop has the size of its map, as each round removes an entry; `chunks` has the length of its list.
--
-- Not modelled: logs (but for the timestamps of the fetcher's log line for a response, which can panic), metrics
-- and the clock (a flag says when an update is due); TLS, http2 and the pool;
-- tonic, diesel, serde_json, regex, sha2, bigdecimal, chrono and Postgres, which are parameters; the other
-- processors and their row models, but for the insert queries and the write set changes; the migrations, the
-- configuration, the metrics and server crates, and the Python, TypeScript and Hasura parts of the repository.
pub mod Prelude
pub mod Protos
pub mod GapDetector
pub mod MovingAverage
pub mod TransactionFilter
pub mod Util
pub mod GrpcStream
pub mod Database
pub mod StatusTracker
pub mod Worker
pub mod Events
pub mod Signatures
pub mod Coin
pub mod Queries
pub mod Changes
