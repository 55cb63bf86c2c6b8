-- ===== src/Queries/Tables4.antt =====
-- The tables delegated_staking_activities to move_resources of rust/processor/src/schema.rs.
use aptos_indexer_processors.Prelude.{some, none, [], ◌∷◌, bytes}
use aptos_indexer_processors.Queries.Upsert.{
  Table, required, optional, sql_bool, sql_int4, sql_int8, sql_jsonb, sql_bytea, sql_numeric,
  sql_text, sql_timestamp, sql_varchar,
}

abbrev pub delegated_staking_activities_table : Table
delegated_staking_activities_table = record {
  name = bytes "delegated_staking_activities";
  primary_key = bytes "transaction_version" ∷ bytes "event_index" ∷ [];
  columns =
      required (bytes "transaction_version") sql_int8
      ∷ required (bytes "event_index") sql_int8
      ∷ required (bytes "delegator_address") (sql_varchar (some 66))
      ∷ required (bytes "pool_address") (sql_varchar (some 66))
      ∷ required (bytes "event_type") sql_text
      ∷ required (bytes "amount") sql_numeric
      ∷ required (bytes "inserted_at") sql_timestamp
      ∷ [];
}

abbrev pub delegated_staking_pool_balances_table : Table
delegated_staking_pool_balances_table = record {
  name = bytes "delegated_staking_pool_balances";
  primary_key = bytes "transaction_version" ∷ bytes "staking_pool_address" ∷ [];
  columns =
      required (bytes "transaction_version") sql_int8
      ∷ required (bytes "staking_pool_address") (sql_varchar (some 66))
      ∷ required (bytes "total_coins") sql_numeric
      ∷ required (bytes "total_shares") sql_numeric
      ∷ required (bytes "inserted_at") sql_timestamp
      ∷ required (bytes "operator_commission_percentage") sql_numeric
      ∷ required (bytes "inactive_table_handle") (sql_varchar (some 66))
      ∷ required (bytes "active_table_handle") (sql_varchar (some 66))
      ∷ [];
}

abbrev pub delegated_staking_pools_table : Table
delegated_staking_pools_table = record {
  name = bytes "delegated_staking_pools";
  primary_key = bytes "staking_pool_address" ∷ [];
  columns =
      required (bytes "staking_pool_address") (sql_varchar (some 66))
      ∷ required (bytes "first_transaction_version") sql_int8
      ∷ required (bytes "inserted_at") sql_timestamp
      ∷ [];
}

abbrev pub delegator_balances_table : Table
delegator_balances_table = record {
  name = bytes "delegator_balances";
  primary_key = bytes "transaction_version" ∷ bytes "write_set_change_index" ∷ [];
  columns =
      required (bytes "transaction_version") sql_int8
      ∷ required (bytes "write_set_change_index") sql_int8
      ∷ required (bytes "delegator_address") (sql_varchar (some 66))
      ∷ required (bytes "pool_address") (sql_varchar (some 66))
      ∷ required (bytes "pool_type") (sql_varchar (some 100))
      ∷ required (bytes "table_handle") (sql_varchar (some 66))
      ∷ required (bytes "shares") sql_numeric
      ∷ required (bytes "parent_table_handle") (sql_varchar (some 66))
      ∷ required (bytes "inserted_at") sql_timestamp
      ∷ [];
}

abbrev pub event_size_info_table : Table
event_size_info_table = record {
  name = bytes "event_size_info";
  primary_key = bytes "transaction_version" ∷ bytes "index" ∷ [];
  columns =
      required (bytes "transaction_version") sql_int8
      ∷ required (bytes "index") sql_int8
      ∷ required (bytes "type_tag_bytes") sql_int8
      ∷ required (bytes "total_bytes") sql_int8
      ∷ required (bytes "inserted_at") sql_timestamp
      ∷ [];
}

abbrev pub events_table : Table
events_table = record {
  name = bytes "events";
  primary_key = bytes "transaction_version" ∷ bytes "event_index" ∷ [];
  columns =
      required (bytes "sequence_number") sql_int8
      ∷ required (bytes "creation_number") sql_int8
      ∷ required (bytes "account_address") (sql_varchar (some 66))
      ∷ required (bytes "transaction_version") sql_int8
      ∷ required (bytes "transaction_block_height") sql_int8
      ∷ required (bytes "type_") sql_text
      ∷ required (bytes "data") sql_jsonb
      ∷ required (bytes "inserted_at") sql_timestamp
      ∷ required (bytes "event_index") sql_int8
      ∷ required (bytes "indexed_type") (sql_varchar (some 600))
      ∷ required (bytes "from") (sql_varchar none)
      ∷ required (bytes "entry_function_id_str") (sql_varchar none)
      ∷ required (bytes "entry_function_payload") sql_jsonb
      ∷ required (bytes "module_address") (sql_varchar none)
      ∷ required (bytes "module_name") (sql_varchar none)
      ∷ required (bytes "event_name") (sql_varchar none)
      ∷ [];
}

abbrev pub fungible_asset_activities_table : Table
fungible_asset_activities_table = record {
  name = bytes "fungible_asset_activities";
  primary_key = bytes "transaction_version" ∷ bytes "event_index" ∷ [];
  columns =
      required (bytes "transaction_version") sql_int8
      ∷ required (bytes "event_index") sql_int8
      ∷ required (bytes "owner_address") (sql_varchar (some 66))
      ∷ required (bytes "storage_id") (sql_varchar (some 66))
      ∷ required (bytes "asset_type") (sql_varchar (some 1000))
      ∷ optional (bytes "is_frozen") sql_bool
      ∷ optional (bytes "amount") sql_numeric
      ∷ required (bytes "type_") (sql_varchar none)
      ∷ required (bytes "is_gas_fee") sql_bool
      ∷ optional (bytes "gas_fee_payer_address") (sql_varchar (some 66))
      ∷ required (bytes "is_transaction_success") sql_bool
      ∷ optional (bytes "entry_function_id_str") (sql_varchar (some 1000))
      ∷ required (bytes "block_height") sql_int8
      ∷ required (bytes "token_standard") (sql_varchar (some 10))
      ∷ required (bytes "transaction_timestamp") sql_timestamp
      ∷ required (bytes "inserted_at") sql_timestamp
      ∷ required (bytes "storage_refund_amount") sql_numeric
      ∷ [];
}

abbrev pub fungible_asset_balances_table : Table
fungible_asset_balances_table = record {
  name = bytes "fungible_asset_balances";
  primary_key = bytes "transaction_version" ∷ bytes "write_set_change_index" ∷ [];
  columns =
      required (bytes "transaction_version") sql_int8
      ∷ required (bytes "write_set_change_index") sql_int8
      ∷ required (bytes "storage_id") (sql_varchar (some 66))
      ∷ required (bytes "owner_address") (sql_varchar (some 66))
      ∷ required (bytes "asset_type") (sql_varchar (some 1000))
      ∷ required (bytes "is_primary") sql_bool
      ∷ required (bytes "is_frozen") sql_bool
      ∷ required (bytes "amount") sql_numeric
      ∷ required (bytes "transaction_timestamp") sql_timestamp
      ∷ required (bytes "token_standard") (sql_varchar (some 10))
      ∷ required (bytes "inserted_at") sql_timestamp
      ∷ [];
}

abbrev pub fungible_asset_metadata_table : Table
fungible_asset_metadata_table = record {
  name = bytes "fungible_asset_metadata";
  primary_key = bytes "asset_type" ∷ [];
  columns =
      required (bytes "asset_type") (sql_varchar (some 1000))
      ∷ required (bytes "creator_address") (sql_varchar (some 66))
      ∷ required (bytes "name") (sql_varchar (some 32))
      ∷ required (bytes "symbol") (sql_varchar (some 10))
      ∷ required (bytes "decimals") sql_int4
      ∷ optional (bytes "icon_uri") (sql_varchar (some 512))
      ∷ optional (bytes "project_uri") (sql_varchar (some 512))
      ∷ required (bytes "last_transaction_version") sql_int8
      ∷ required (bytes "last_transaction_timestamp") sql_timestamp
      ∷ optional (bytes "supply_aggregator_table_handle_v1") (sql_varchar (some 66))
      ∷ optional (bytes "supply_aggregator_table_key_v1") sql_text
      ∷ required (bytes "token_standard") (sql_varchar (some 10))
      ∷ required (bytes "inserted_at") sql_timestamp
      ∷ optional (bytes "is_token_v2") sql_bool
      ∷ optional (bytes "supply_v2") sql_numeric
      ∷ optional (bytes "maximum_v2") sql_numeric
      ∷ [];
}

abbrev pub move_modules_table : Table
move_modules_table = record {
  name = bytes "move_modules";
  primary_key = bytes "transaction_version" ∷ bytes "write_set_change_index" ∷ [];
  columns =
      required (bytes "transaction_version") sql_int8
      ∷ required (bytes "write_set_change_index") sql_int8
      ∷ required (bytes "transaction_block_height") sql_int8
      ∷ required (bytes "name") sql_text
      ∷ required (bytes "address") (sql_varchar (some 66))
      ∷ optional (bytes "bytecode") sql_bytea
      ∷ optional (bytes "friends") sql_jsonb
      ∷ optional (bytes "exposed_functions") sql_jsonb
      ∷ optional (bytes "structs") sql_jsonb
      ∷ required (bytes "is_deleted") sql_bool
      ∷ required (bytes "inserted_at") sql_timestamp
      ∷ [];
}

abbrev pub move_resources_table : Table
move_resources_table = record {
  name = bytes "move_resources";
  primary_key = bytes "transaction_version" ∷ bytes "write_set_change_index" ∷ [];
  columns =
      required (bytes "transaction_version") sql_int8
      ∷ required (bytes "write_set_change_index") sql_int8
      ∷ required (bytes "transaction_block_height") sql_int8
      ∷ required (bytes "name") sql_text
      ∷ required (bytes "address") (sql_varchar (some 66))
      ∷ required (bytes "type_") sql_text
      ∷ required (bytes "module") sql_text
      ∷ optional (bytes "generic_type_params") sql_jsonb
      ∷ optional (bytes "data") sql_jsonb
      ∷ required (bytes "is_deleted") sql_bool
      ∷ required (bytes "inserted_at") sql_timestamp
      ∷ required (bytes "state_key_hash") (sql_varchar (some 66))
      ∷ [];
}
