-- ===== src/Events/Collect.antt =====
-- `process_transactions` of rust/processor/src/processors/events_processor.rs: the rows that a batch
-- gives, and the result after their insertion.
use aptos_indexer_processors.Prelude.{
  ℕ, Option, none, some, Outcome, done, panic, ◌>>=◌, unwrap, List, [], ◌∷◌, ◌++◌, length, Bool,
  false, not, ◌==◌, nat_eq, text_eq, ◌&&◌, ◌||◌, if◌then◌else◌, Text, bytes,
}
use aptos_indexer_processors.Prelude.Chunks.{retain}
use aptos_indexer_processors.Protos.{
  Event, UserTransactionRequest, TxnData, user, block_metadata, genesis, state_checkpoint,
  validator, WriteResource, Change, write_resource, delete_module, delete_resource,
  delete_table_item, write_module, write_table_item, Transaction,
}
use aptos_indexer_processors.GapDetector.{ProcessingResult}
use aptos_indexer_processors.GrpcStream.Response.{as_i64, last}
use aptos_indexer_processors.Util.Address.{standardize_address}
use aptos_indexer_processors.Events.Model.{EventModel, Libraries, from_event, from_events}

abbrev pub filtered_events : List Text
filtered_events =
    bytes "0x1::transaction_fee::FeeStatement"
    ∷ bytes "0x1::multisig_account::create_with_owners"
    ∷ []

abbrev pub required_events : List Text
required_events =
    bytes "0x111ae3e5bc816a5e63c2da97d0aa3886519e0cd5e4b046659fa35796bd11542a"
    ∷ bytes "0x9770fa9c725cbd97eb50b2be5f7416efdfd1f1554beb0750d4dae4c64e860da3"
    ∷ bytes "0x190d44266241744264b964a37b8f09863167a12d3e70cda39376cfb4e3561e12"
    ∷ bytes "0x61d2c22a6cb7831bee0f48363b0eec92369357aece0d1142062f7d5d85c7bef8"
    ∷ bytes "0xc7efb4076dbe143cbcd98cfaaa929ecfc8f299203dfff63b95ccb6bfe19850fa"
    ∷ bytes "0x48271d39d0b05bd6efca2278f22277d6fcc375504f9839fd73f74ace240861af"
    ∷ bytes "0x5ae6789dd2fec1a9ec9cccfb3acaf12e93d432f0a3a42c92fe1a9d490b7bbc06"
    ∷ bytes "0x31a6675cbe84365bf2b0cbce617ece6c47023ef70826533bde5203d32171dc3c"
    ∷ bytes "0xe11c12ec495f3989c35e1c6a0af414451223305b579291fc8f3d9d0575a23c26"
    ∷ bytes "0x584b50b999c78ade62f8359c91b5165ff390338d45f8e55969a04e65d76258c9"
    ∷ bytes "0xd520d8669b0a3de23119898dcdff3e0a27910db247663646ad18cf16e44c6f5"
    ∷ bytes "0xc0deb00c405f84c85dc13442e305df75d1288100cdd82675695f6148c7ece51c"
    ∷ bytes "0x17f1e926a81639e9557f4e4934df93452945ec30bc962e11351db59eb0d78c33"
    ∷ bytes "0x1::voting"
    ∷ bytes "0x1::aptos_governance"
    ∷ bytes "0x1::delegation_pool"
    ∷ bytes "0x05a97986a9d031c4567e15b797be516910cfcb4156312482efc6a19c0a30c948"
    ∷ bytes "0xfaf4e633ae9eb31366c9ca24214231760926576c7b625313b3688b5e900731f6"
    ∷ bytes "0x163df34fccbf003ce219d3f1d9e70d140b60622cb9dd47599c25fb2f797ba6e"
    ∷ bytes "0x4bf51972879e3b95c4781a5cdcb9e1ee24ef483e7d22f2d903626f126df62bd1"
    ∷ bytes "0x3c1d4a86594d681ff7e5d5a233965daeabdc6a15fe5672ceeda5260038857183"
    ∷ bytes "0xc6bc659f1649553c1a3fa05d9727433dc03843baac29473c817d06d39e7621ba"
    ∷ bytes "0x167f411fc5a678fb40d86e0af646fa8f62458b686ad8996215248447037af40c"
    ∷ bytes "0x1::multisig_account::CreateTransactionEvent"
    ∷ bytes "0x1::multisig_account::AddOwnersEvent"
    ∷ bytes "0x1::multisig_account::RemoveOwnersEvent"
    ∷ bytes "0x1::multisig_account::VoteEvent"
    ∷ bytes "0x1::multisig_account::TransactionExecutionSucceededEvent"
    ∷ bytes "0x1::multisig_account::TransactionExecutionFailedEvent"
    ∷ bytes "0x1::multisig_account::ExecuteRejectedTransactionEvent"
    ∷ bytes "0xccd1a84ccea93531d7f165b90134aa0415feb30e8757ab1632dac68c0055f5c2"
    ∷ []

abbrev pub multisig_account : Text
multisig_account = bytes "0x1::multisig_account::MultisigAccount"

unfoldable pub contains : List Text → Text → Bool
contains [] t = false
contains (x ∷ xs) t = x == t || contains xs t

-- The resources of multisig accounts among the changes; a change without content panics.
unfoldable pub multisig_resources : List (Option Change) → Outcome (List WriteResource)
multisig_resources [] = done []
multisig_resources (none ∷ changes) = panic
multisig_resources (some (write_resource w) ∷ changes) = do
  ws ← multisig_resources changes
  done (if w.type_str == multisig_account then w ∷ ws else ws)
multisig_resources (some (delete_module _) ∷ changes) = multisig_resources changes
multisig_resources (some (delete_resource _) ∷ changes) = multisig_resources changes
multisig_resources (some (delete_table_item _) ∷ changes) = multisig_resources changes
multisig_resources (some (write_module _) ∷ changes) = multisig_resources changes
multisig_resources (some (write_table_item _) ∷ changes) = multisig_resources changes

-- The event that stands for a multisig account's resource.
unfoldable pub multisig_event : UserTransactionRequest → WriteResource → Event
multisig_event request w = record {
  key = some (record {
    account_address = standardize_address request.sender;
    creation_number = request.sequence_number;
  });
  sequence_number = request.sequence_number;
  type_str = w.type_str;
  data_json = w.data_json;
}

-- Whether a row of a transaction's own events is kept.
unfoldable pub is_wanted : {Json D : Type 0} → EventModel Json D → Bool
unfolding contains
is_wanted row =
    (not (contains filtered_events row.type_) || contains required_events row.type_)
    && not (contains filtered_events row.entry_function_id_str)

module _ {Json D : Type 0} (lib : Libraries Json D) where
  -- A row for each multisig resource, with the number of rows so far as its index.
  unfoldable pub push_multisig :
      Transaction
      → UserTransactionRequest
      → List WriteResource
      → List (EventModel Json D)
      → Outcome (List (EventModel Json D))
  unfolding multisig_event
  push_multisig txn request [] events = done events
  push_multisig txn request (w ∷ ws) events = do
    row ←
        from_event lib (multisig_event request w) (as_i64 txn.version) (as_i64 txn.block_height)
          (length events) (some request) txn.timestamp
    push_multisig txn request ws (events ++ row ∷ [])

  -- The rows of a user transaction with a request, behind those so far.
  unfoldable pub push_user :
      Transaction
      → UserTransactionRequest
      → List Event
      → List (EventModel Json D)
      → Outcome (List (EventModel Json D))
  unfolding multisig_resources push_multisig is_wanted
  push_user txn request raw_events events = do
    info ← unwrap txn.info
    resources ← multisig_resources info.changes
    events' ← push_multisig txn request resources events
    txn_events ←
        from_events lib raw_events (as_i64 txn.version) (as_i64 txn.block_height) (some request)
          txn.timestamp 0
    done (events' ++ retain is_wanted txn_events)

  -- Only user transactions have a request; every other one is skipped.
  unfoldable pub push_data :
      Transaction → Option TxnData → List (EventModel Json D) → Outcome (List (EventModel Json D))
  unfolding push_user
  push_data txn none events = done events
  push_data txn (some (block_metadata _)) events = done events
  push_data txn (some (genesis _)) events = done events
  push_data txn (some state_checkpoint) events = done events
  push_data txn (some validator) events = done events
  push_data txn (some (user u)) events = elim u.request [
    | none ↦ done events
    | some request ↦ push_user txn request u.events events
  ]

  unfoldable pub collect :
      List Transaction → List (EventModel Json D) → Outcome (List (EventModel Json D))
  unfolding push_data
  collect [] events = done events
  collect (txn ∷ txns) events = do events' ← push_data txn txn.txn_data events; collect txns events'

  -- `insert_to_db` answers whether the rows could be inserted; the inner option is none for its error.
  unfoldable pub process_transactions :
      (List (EventModel Json D) → Bool)
      → List Transaction
      → ℕ
      → ℕ
      → Outcome (Option ProcessingResult)
  unfolding collect
  process_transactions insert_to_db transactions start_version end_version = do
    last_transaction ← unwrap (last transactions)
    events ← collect transactions []
    done (
        if insert_to_db events
        then some (record {
          start_version = start_version;
          end_version = end_version;
          last_transaction_timestamp = last_transaction.timestamp;
        })
        else none)
