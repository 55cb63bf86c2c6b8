-- ===== src/Changes/Details.antt =====
-- The rows for modules, resources and table items: move_modules.rs, move_resources.rs and move_tables.rs of
-- rust/processor/src/models/default_models. `serde_json`, `hex` and the hash are parameters.
use aptos_indexer_processors.Prelude.{
  ℕ, Option, none, some, Outcome, done, ◌>>=◌, unwrap, List, [], ◌∷◌, Bool, true, false, Text,
}
use aptos_indexer_processors.Prelude.Int.{ℤ}
use aptos_indexer_processors.Protos.{
  MoveStructTag, WriteResource, DeleteResource, WriteTableItem, DeleteTableItem, MoveModuleAbi,
  MoveModuleBytecode, WriteModule, DeleteModule,
}
use aptos_indexer_processors.Util.Address.{standardize_address}
use aptos_indexer_processors.Changes.Models.{
  Libraries, MoveModule, MoveModuleByteCodeParsed, MoveResource, MoveStructTagParsed, TableItem,
  CurrentTableItem, TableMetadata,
}

-- All the results, or none where one is missing.
unfoldable pub all_some : {A B : Type 0} → (A → Option B) → List A → Option (List B)
all_some f [] = some []
all_some f (x ∷ xs) = elim (f x) [
  | none ↦ none
  | some y ↦ elim (all_some f xs) [ none ↦ none | some ys ↦ some (y ∷ ys) ]
]

abbrev pub or_default : Option Text → Text
or_default none = []
or_default (some t) = t

-- The version, the index and the block height that the rows of a change share.
abbrev pub Place : Type 0
Place = ℤ × ℕ × ℤ

module _ {Json : Type 0} (lib : Libraries Json) where
  abbrev json_array : List Text → Outcome Json
  json_array messages = do found ← unwrap (all_some lib.to_value messages); done (lib.array found)

  unfoldable pub convert_move_module :
      MoveModuleAbi → Text → Outcome (MoveModuleByteCodeParsed Json)
  unfolding all_some
  convert_move_module abi bytecode = do
    exposed_functions ← json_array abi.exposed_functions
    friends ← json_array abi.friends
    structs ← json_array abi.structs
    done (record {
      address = standardize_address abi.address;
      name = abi.name;
      bytecode = bytecode;
      exposed_functions = exposed_functions;
      friends = friends;
      structs = structs;
    })

  unfoldable pub convert_move_module_bytecode :
      MoveModuleBytecode → Outcome (Option (MoveModuleByteCodeParsed Json))
  unfolding convert_move_module
  convert_move_module_bytecode mmb = elim mmb.abi [
    | none ↦ done none
    | some abi ↦ do parsed ← convert_move_module abi mmb.bytecode; done (some parsed)
  ]

  -- A module without an ABI has an empty name.
  unfoldable pub from_write_module : WriteModule → Place → Outcome (MoveModule Json)
  unfolding convert_move_module_bytecode
  from_write_module w place = do
    bytecode ← unwrap w.module_data
    parsed ← convert_move_module_bytecode bytecode
    done (record {
      transaction_version = place.0;
      write_set_change_index = place.1;
      transaction_block_height = place.2;
      name = elim parsed [ none ↦ [] | some d ↦ d.name ];
      address = standardize_address w.address;
      bytecode = elim parsed [ none ↦ none | some d ↦ some d.bytecode ];
      exposed_functions = elim parsed [ none ↦ none | some d ↦ some d.exposed_functions ];
      friends = elim parsed [ none ↦ none | some d ↦ some d.friends ];
      structs = elim parsed [ none ↦ none | some d ↦ some d.structs ];
      is_deleted = false;
    })

  unfoldable pub from_delete_module : DeleteModule → Place → MoveModule Json
  from_delete_module w place = record {
    transaction_version = place.0;
    write_set_change_index = place.1;
    transaction_block_height = place.2;
    name = or_default w.module_name;
    address = standardize_address w.address;
    bytecode = none;
    exposed_functions = none;
    friends = none;
    structs = none;
    is_deleted = true;
  }

  unfoldable pub convert_move_struct_tag : MoveStructTag → MoveStructTagParsed Json
  unfolding all_some
  convert_move_struct_tag tag = record {
    address = standardize_address tag.address;
    name_of_module = tag.name_of_module;
    name = tag.name;
    generic_type_params = elim (all_some lib.type_to_value tag.generic_type_params) [
      | none ↦ none
      | some params ↦ some (lib.array params)
    ];
  }

  unfoldable pub resource_from_write : WriteResource → Place → Outcome (MoveResource Json)
  unfolding convert_move_struct_tag
  resource_from_write w place = do
    tag ← unwrap w.type_
    value ← unwrap (lib.from_str w.data_json)
    done (record {
      transaction_version = place.0;
      write_set_change_index = place.1;
      transaction_block_height = place.2;
      name = (convert_move_struct_tag tag).name;
      type_ = w.type_str;
      address = standardize_address w.address;
      name_of_module = (convert_move_struct_tag tag).name_of_module;
      generic_type_params = (convert_move_struct_tag tag).generic_type_params;
      resource_data = some value;
      is_deleted = false;
      state_key_hash = standardize_address (lib.encode w.state_key_hash);
    })

  unfoldable pub from_delete_resource : DeleteResource → Place → Outcome (MoveResource Json)
  unfolding convert_move_struct_tag
  from_delete_resource w place = do
    tag ← unwrap w.type_
    done (record {
      transaction_version = place.0;
      write_set_change_index = place.1;
      transaction_block_height = place.2;
      name = (convert_move_struct_tag tag).name;
      type_ = w.type_str;
      address = standardize_address w.address;
      name_of_module = (convert_move_struct_tag tag).name_of_module;
      generic_type_params = (convert_move_struct_tag tag).generic_type_params;
      resource_data = none;
      is_deleted = true;
      state_key_hash = standardize_address (lib.encode w.state_key_hash);
    })

  -- The two rows of a table item.
  unfoldable pub table_items :
      Text → Text → Json → Option Json → Bool → Place → TableItem Json × CurrentTableItem Json
  table_items handle key decoded_key decoded_value is_deleted place = (
    record {
      transaction_version = place.0;
      write_set_change_index = place.1;
      transaction_block_height = place.2;
      key = key;
      table_handle = standardize_address handle;
      decoded_key = decoded_key;
      decoded_value = decoded_value;
      is_deleted = is_deleted;
    },
    record {
      table_handle = standardize_address handle;
      key_hash = lib.hash_str key;
      key = key;
      decoded_key = decoded_key;
      decoded_value = decoded_value;
      last_transaction_version = place.0;
      is_deleted = is_deleted;
    },
  )

  unfoldable pub items_from_write :
      WriteTableItem → Place → Outcome (TableItem Json × CurrentTableItem Json)
  unfolding table_items
  items_from_write w place = do
    item ← unwrap w.table_data
    decoded_key ← unwrap (lib.from_str item.key)
    decoded_value ← unwrap (lib.option_from_str item.value)
    done (table_items w.handle w.key decoded_key decoded_value false place)

  unfoldable pub from_delete_table_item :
      DeleteTableItem → Place → Outcome (TableItem Json × CurrentTableItem Json)
  unfolding table_items
  from_delete_table_item w place = do
    deleted_key ← unwrap w.deleted_key
    decoded_key ← unwrap (lib.from_str deleted_key)
    done (table_items w.handle w.key decoded_key none true place)

-- `TableMetadata::from_write_table_item`
unfoldable pub metadata_of : WriteTableItem → Outcome TableMetadata
metadata_of w = do
  item ← unwrap w.table_data
  done (record { handle = w.handle; key_type = item.key_type; value_type = item.value_type })
