-- ===== src/GrpcStream/Response.antt =====
-- One response in `create_fetcher_loop` of rust/processor/src/grpc_stream.rs: from the first
-- transaction's version to the messages that go to the channel. Metrics and the moving averages, which
-- only feed logs, are left out. Of the log line for a received response the two timestamps are kept, since
-- their conversion can panic: the line is on at the default level. `chrono` is the parameter
-- `from_timestamp_opt`, which gives a date as its formatted text.
pub mod Delivery
use aptos_indexer_processors.Prelude.{
  ℕ, suc, ◌+◌, ◌-◌, ◌*◌, ◌/◌, ◌^◌, Option, none, some, Outcome, done, panic, ◌>>=◌, unwrap, List,
  [], ◌∷◌, map, length, Bool, u64, u64_mod, ltb, if◌then◌else◌, ◌==◌, nat_eq, Text,
}
use aptos_indexer_processors.Prelude.Int.{ℤ, pos, negsuc, leb_ℤ, sub_ℕ}
use aptos_indexer_processors.Prelude.Chunks.{chunks, retain}
use aptos_indexer_processors.Util.Timestamp.{timestamp_to_iso}
use aptos_indexer_processors.Protos.{Timestamp, Transaction, TransactionsResponse}

pub record TransactionsPbResponse : Type 0 where
  pub transactions : List Transaction
  pub chain_id : ℕ
  pub start_version : ℕ
  pub end_version : ℕ
  pub start_txn_timestamp : Option Timestamp
  pub end_txn_timestamp : Option Timestamp
  pub size_in_bytes : ℕ

abbrev pub first : {A : Type 0} → List A → Option A
first [] = none
first (x ∷ xs) = some x

abbrev pub last : {A : Type 0} → List A → Option A
last [] = none
last (x ∷ []) = some x
last (x ∷ y ∷ xs) = last (y ∷ xs)

-- `v as i64` of a `u64`, and `n + 1` and `n - 1` of an `i64`, which wrap around.
abbrev pub as_i64 : ℕ → ℤ
as_i64 v = if ltb v (2 ^ 63) then pos v else negsuc (u64_mod - v - 1)

abbrev pub plus_one : ℤ → ℤ
plus_one (pos n) = if ltb (n + 1) (2 ^ 63) then pos (n + 1) else negsuc (2 ^ 63 - 1)
plus_one (negsuc ℕ.zero) = pos 0
plus_one (negsuc (ℕ.suc n)) = negsuc n

abbrev pub minus_one : ℤ → ℤ
minus_one (pos ℕ.zero) = negsuc 0
minus_one (pos (ℕ.suc n)) = pos n
minus_one (negsuc n) = if ltb (n + 1) (2 ^ 63) then negsuc (suc n) else pos (2 ^ 63 - 1)

abbrev pub eq_ℤ : ℤ → ℤ → Bool
eq_ℤ (pos m) (pos n) = m == n
eq_ℤ (negsuc m) (negsuc n) = m == n
eq_ℤ (pos m) (negsuc n) = Bool.false
eq_ℤ (negsuc m) (pos n) = Bool.false

-- The versions and timestamps at the two ends of a response, and its chain.
pub record Header : Type 0 where
  pub start_version : ℕ
  pub end_version : ℕ
  pub start_txn_timestamp : Option Timestamp
  pub end_txn_timestamp : Option Timestamp
  pub chain_id : ℕ

unfoldable pub header : TransactionsResponse → Outcome Header
header r = do
  first_txn ← unwrap (first r.transactions)
  last_txn ← unwrap (last r.transactions)
  chain_id ← unwrap r.chain_id
  done (record {
    start_version = first_txn.version;
    end_version = last_txn.version;
    start_txn_timestamp = first_txn.timestamp;
    end_txn_timestamp = last_txn.timestamp;
    chain_id = chain_id;
  })

-- A message for the channel with the header of its response.
unfoldable pub message : Header → ℕ → List Transaction → TransactionsPbResponse
message h size_in_bytes txns = record {
  transactions = txns;
  chain_id = h.chain_id;
  start_version = h.start_version;
  end_version = h.end_version;
  start_txn_timestamp = h.start_txn_timestamp;
  end_txn_timestamp = h.end_txn_timestamp;
  size_in_bytes = size_in_bytes;
}

-- The messages of a response whose filtered transactions are `kept`: one, or chunks of
-- `pb_channel_txn_chunk_size`. `chunks` of `itertools` panics at the size 0.
unfoldable pub messages :
    Header → ℕ → ℕ → ℕ → List Transaction → Outcome (List TransactionsPbResponse)
unfolding message
messages h size_in_bytes num_txns chunk_size kept =
    if ltb (length kept) chunk_size
    then done (message h size_in_bytes kept ∷ [])
    else if chunk_size == 0
    then panic
    else done (
        map (λ txns. message h (u64 (size_in_bytes / num_txns * length txns)) txns)
          (chunks chunk_size kept))

-- The check for a gap to the last version, and the messages behind it.
unfoldable pub check_and_split :
    Header
    → (Transaction → Bool)
    → ℕ
    → ℤ
    → TransactionsResponse
    → Outcome (List TransactionsPbResponse)
check_and_split h include chunk_size last_fetched_version r =
    if eq_ℤ (plus_one last_fetched_version) (as_i64 h.start_version)
    then messages h r.encoded_len (length r.transactions) chunk_size (retain include r.transactions)
    else panic

-- `.as_ref().map(timestamp_to_iso).unwrap_or_default()`
unfoldable pub iso_or_default : (ℤ → ℕ → Option Text) → Option Timestamp → Outcome Text
unfolding timestamp_to_iso
iso_or_default from_timestamp_opt none = done []
iso_or_default from_timestamp_opt (some timestamp) = timestamp_to_iso from_timestamp_opt timestamp

-- The response that arrives when `last_fetched_version` was the last version before it: its header and
-- messages. A timestamp that cannot be written to the log panics, and so does a gap to the last version.
unfoldable pub handle_response :
    (ℤ → ℕ → Option Text)
    → (Transaction → Bool)
    → ℕ
    → ℤ
    → TransactionsResponse
    → Outcome (Header × List TransactionsPbResponse)
unfolding iso_or_default
handle_response from_timestamp_opt include chunk_size last_fetched_version r = do
  h ← header r
  start_txn_timestamp_iso ← iso_or_default from_timestamp_opt h.start_txn_timestamp
  end_txn_timestamp_iso ← iso_or_default from_timestamp_opt h.end_txn_timestamp
  sent ← check_and_split h include chunk_size last_fetched_version r
  done (h, sent)
