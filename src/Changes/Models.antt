-- ===== src/Changes/Models.antt =====
-- The rows of the tables move_modules, move_resources, table_items, current_table_items and table_metadatas,
-- and the parsed parts of modules and resources: the structs of move_modules.rs, move_resources.rs and
-- move_tables.rs in rust/processor/src/models/default_models.
use aptos_indexer_processors.Prelude.{ℕ, Option, List, Bool, Text}
use aptos_indexer_processors.Prelude.Int.{ℤ}
use aptos_indexer_processors.Protos.{MoveType}

-- `from_str` into a value and into an option of one, `to_value` of an encoded message and of a type, an
-- array, `hex::encode`, and the text of the SHA-256.
pub record Libraries (Json : Type 0) : Type 0 where
  pub from_str : Text → Option Json
  pub option_from_str : Text → Option (Option Json)
  pub to_value : Text → Option Json
  pub type_to_value : MoveType → Option Json
  pub array : List Json → Json
  pub encode : Text → Text
  pub hash_str : Text → Text

pub record MoveModule (Json : Type 0) : Type 0 where
  pub transaction_version : ℤ
  pub write_set_change_index : ℕ
  pub transaction_block_height : ℤ
  pub name : Text
  pub address : Text
  pub bytecode : Option Text
  pub exposed_functions : Option Json
  pub friends : Option Json
  pub structs : Option Json
  pub is_deleted : Bool

pub record MoveModuleByteCodeParsed (Json : Type 0) : Type 0 where
  pub address : Text
  pub name : Text
  pub bytecode : Text
  pub exposed_functions : Json
  pub friends : Json
  pub structs : Json

pub record MoveResource (Json : Type 0) : Type 0 where
  pub transaction_version : ℤ
  pub write_set_change_index : ℕ
  pub transaction_block_height : ℤ
  pub name : Text
  pub type_ : Text
  pub address : Text
  pub name_of_module : Text
  pub generic_type_params : Option Json
  pub resource_data : Option Json
  pub is_deleted : Bool
  pub state_key_hash : Text

pub record MoveStructTagParsed (Json : Type 0) : Type 0 where
  pub address : Text
  pub name_of_module : Text
  pub name : Text
  pub generic_type_params : Option Json

pub record TableItem (Json : Type 0) : Type 0 where
  pub transaction_version : ℤ
  pub write_set_change_index : ℕ
  pub transaction_block_height : ℤ
  pub key : Text
  pub table_handle : Text
  pub decoded_key : Json
  pub decoded_value : Option Json
  pub is_deleted : Bool

pub record CurrentTableItem (Json : Type 0) : Type 0 where
  pub table_handle : Text
  pub key_hash : Text
  pub key : Text
  pub decoded_key : Json
  pub decoded_value : Option Json
  pub last_transaction_version : ℤ
  pub is_deleted : Bool

pub record TableMetadata : Type 0 where
  pub handle : Text
  pub key_type : Text
  pub value_type : Text
