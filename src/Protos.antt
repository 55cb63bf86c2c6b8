-- ===== src/Protos.antt =====
-- The protobuf messages of the crate `aptos_protos` that the processors read: records with the fields
-- that the code under rust/processor/src reads, and the `oneof` cases that it matches. The numbers
-- behind the enum `TransactionType` are the crate's own; the models take them as a parameter.
pub mod Signatures
use aptos_indexer_processors.Prelude.{ℕ, Option, List, Text, Bool}
use aptos_indexer_processors.Prelude.Int.{ℤ}
use aptos_indexer_processors.Protos.Signatures.{TransactionSignature}

pub record Timestamp : Type 0 where
  pub seconds : ℤ
  pub nanos : ℤ

pub record MoveModuleId : Type 0 where
  pub address : Text
  pub name : Text

pub record EntryFunctionId : Type 0 where
  pub module_id : Option MoveModuleId
  pub name : Text

pub record EntryFunctionPayload : Type 0 where
  pub function : Option EntryFunctionId
  pub arguments : List Text
  pub entry_function_id_str : Text

-- `multisig_transaction_payload::Payload` has the one case of an entry function.
pub record MultisigTransactionPayload : Type 0 where
  pub payload : Option EntryFunctionPayload

pub record MultisigPayload : Type 0 where
  pub multisig_address : Text
  pub transaction_payload : Option MultisigTransactionPayload

pub data Payload : Type 0 where
  entry_function_payload : EntryFunctionPayload → Payload
  script_payload : List Text → Payload
  write_set_payload : Payload
  multisig_payload : MultisigPayload → Payload

pub record TransactionPayload : Type 0 where
  pub payload : Option Payload

pub record UserTransactionRequest : Type 0 where
  pub sender : Text
  pub sequence_number : ℕ
  pub gas_unit_price : ℕ
  pub signature : Option TransactionSignature
  pub payload : Option TransactionPayload

pub record EventKey : Type 0 where
  pub account_address : Text
  pub creation_number : ℕ

pub record Event : Type 0 where
  pub key : Option EventKey
  pub sequence_number : ℕ
  pub type_str : Text
  pub data_json : Text

pub record UserTransaction : Type 0 where
  pub request : Option UserTransactionRequest
  pub events : List Event

pub data TxnData : Type 0 where
  block_metadata genesis : List Event → TxnData
  state_checkpoint validator : TxnData
  user : UserTransaction → TxnData

-- `move_type::Content`: of a struct, the address of its tag.
pub data Content : Type 0 where
  struct_content : Text → Content
  other_content : Content

pub record MoveType : Type 0 where
  pub content : Option Content

pub record MoveStructTag : Type 0 where
  pub address : Text
  pub name_of_module : Text
  pub name : Text
  pub generic_type_params : List MoveType

pub record WriteResource : Type 0 where
  pub address : Text
  pub state_key_hash : Text
  pub type_ : Option MoveStructTag
  pub type_str : Text
  pub data_json : Text

pub record WriteTableData : Type 0 where
  pub key : Text
  pub key_type : Text
  pub value : Text
  pub value_type : Text

pub record DeleteResource : Type 0 where
  pub address : Text
  pub state_key_hash : Text
  pub type_ : Option MoveStructTag
  pub type_str : Text

pub record WriteTableItem : Type 0 where
  pub handle : Text
  pub key : Text
  pub state_key_hash : Text
  pub table_data : Option WriteTableData

-- `data` by its key.
pub record DeleteTableItem : Type 0 where
  pub handle : Text
  pub key : Text
  pub state_key_hash : Text
  pub deleted_key : Option Text

-- The functions, friends and structs are encoded messages.
pub record MoveModuleAbi : Type 0 where
  pub address : Text
  pub name : Text
  pub exposed_functions : List Text
  pub friends : List Text
  pub structs : List Text

pub record MoveModuleBytecode : Type 0 where
  pub bytecode : Text
  pub abi : Option MoveModuleAbi

pub record WriteModule : Type 0 where
  pub address : Text
  pub state_key_hash : Text
  pub module_data : Option MoveModuleBytecode

-- `module` by its name.
pub record DeleteModule : Type 0 where
  pub address : Text
  pub state_key_hash : Text
  pub module_name : Option Text

pub data Change : Type 0 where
  delete_module : DeleteModule → Change
  delete_resource : DeleteResource → Change
  delete_table_item : DeleteTableItem → Change
  write_module : WriteModule → Change
  write_table_item : WriteTableItem → Change
  write_resource : WriteResource → Change

-- The declared type of a change.
pub data ChangeType : Type 0 where
  type_unspecified type_delete_module type_delete_resource type_delete_table_item
        type_write_module :
      ChangeType
  type_write_resource type_write_table_item : ChangeType

-- `type_` is what `try_from` makes of the number. The list in `TransactionInfo` has the changes alone.
pub record WriteSetChange : Type 0 where
  pub type_ : Option ChangeType
  pub change : Option Change

pub record TransactionInfo : Type 0 where
  pub gas_used : ℕ
  pub success : Bool
  pub changes : List (Option Change)

pub record Transaction : Type 0 where
  pub version : ℕ
  pub epoch : ℕ
  pub block_height : ℕ
  pub timestamp : Option Timestamp
  pub info : Option TransactionInfo
  pub transaction_type : ℕ
  pub txn_data : Option TxnData

-- `encoded_len` stands for the length of the message's encoding.
pub record TransactionsResponse : Type 0 where
  pub transactions : List Transaction
  pub chain_id : Option ℕ
  pub encoded_len : ℕ

pub record GetTransactionsRequest : Type 0 where
  pub starting_version : Option ℕ
  pub transactions_count : Option ℕ
