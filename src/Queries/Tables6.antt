-- ===== src/Queries/Tables6.antt =====
-- The tables token_ownerships to write_set_size_info of rust/processor/src/schema.rs.
use aptos_indexer_processors.Prelude.{some, none, [], ◌∷◌, bytes}
use aptos_indexer_processors.Queries.Upsert.{
  Table, required, optional, sql_bool, sql_int8, sql_jsonb, sql_numeric, sql_text, sql_timestamp,
  sql_varchar,
}

abbrev pub token_ownerships_table : Table
token_ownerships_table = record {
  name = bytes "token_ownerships";
  primary_key =
      bytes "token_data_id_hash"
      ∷ bytes "property_version"
      ∷ bytes "transaction_version"
      ∷ bytes "table_handle"
      ∷ [];
  columns =
      required (bytes "token_data_id_hash") (sql_varchar (some 64))
      ∷ required (bytes "property_version") sql_numeric
      ∷ required (bytes "transaction_version") sql_int8
      ∷ required (bytes "table_handle") (sql_varchar (some 66))
      ∷ required (bytes "creator_address") (sql_varchar (some 66))
      ∷ required (bytes "collection_name") (sql_varchar (some 128))
      ∷ required (bytes "name") (sql_varchar (some 128))
      ∷ optional (bytes "owner_address") (sql_varchar (some 66))
      ∷ required (bytes "amount") sql_numeric
      ∷ optional (bytes "table_type") sql_text
      ∷ required (bytes "inserted_at") sql_timestamp
      ∷ required (bytes "collection_data_id_hash") (sql_varchar (some 64))
      ∷ required (bytes "transaction_timestamp") sql_timestamp
      ∷ [];
}

abbrev pub token_ownerships_v2_table : Table
token_ownerships_v2_table = record {
  name = bytes "token_ownerships_v2";
  primary_key = bytes "transaction_version" ∷ bytes "write_set_change_index" ∷ [];
  columns =
      required (bytes "transaction_version") sql_int8
      ∷ required (bytes "write_set_change_index") sql_int8
      ∷ required (bytes "token_data_id") (sql_varchar (some 66))
      ∷ required (bytes "property_version_v1") sql_numeric
      ∷ optional (bytes "owner_address") (sql_varchar (some 66))
      ∷ required (bytes "storage_id") (sql_varchar (some 66))
      ∷ required (bytes "amount") sql_numeric
      ∷ optional (bytes "table_type_v1") (sql_varchar (some 66))
      ∷ optional (bytes "token_properties_mutated_v1") sql_jsonb
      ∷ optional (bytes "is_soulbound_v2") sql_bool
      ∷ required (bytes "token_standard") (sql_varchar (some 10))
      ∷ optional (bytes "is_fungible_v2") sql_bool
      ∷ required (bytes "transaction_timestamp") sql_timestamp
      ∷ required (bytes "inserted_at") sql_timestamp
      ∷ optional (bytes "non_transferrable_by_owner") sql_bool
      ∷ [];
}

abbrev pub tokens_table : Table
tokens_table = record {
  name = bytes "tokens";
  primary_key =
      bytes "token_data_id_hash" ∷ bytes "property_version" ∷ bytes "transaction_version" ∷ [];
  columns =
      required (bytes "token_data_id_hash") (sql_varchar (some 64))
      ∷ required (bytes "property_version") sql_numeric
      ∷ required (bytes "transaction_version") sql_int8
      ∷ required (bytes "creator_address") (sql_varchar (some 66))
      ∷ required (bytes "collection_name") (sql_varchar (some 128))
      ∷ required (bytes "name") (sql_varchar (some 128))
      ∷ required (bytes "token_properties") sql_jsonb
      ∷ required (bytes "inserted_at") sql_timestamp
      ∷ required (bytes "collection_data_id_hash") (sql_varchar (some 64))
      ∷ required (bytes "transaction_timestamp") sql_timestamp
      ∷ [];
}

abbrev pub transaction_size_info_table : Table
transaction_size_info_table = record {
  name = bytes "transaction_size_info";
  primary_key = bytes "transaction_version" ∷ [];
  columns =
      required (bytes "transaction_version") sql_int8
      ∷ required (bytes "size_bytes") sql_int8
      ∷ required (bytes "inserted_at") sql_timestamp
      ∷ [];
}

abbrev pub transactions_table : Table
transactions_table = record {
  name = bytes "transactions";
  primary_key = bytes "version" ∷ [];
  columns =
      required (bytes "version") sql_int8
      ∷ required (bytes "block_height") sql_int8
      ∷ required (bytes "hash") (sql_varchar (some 66))
      ∷ required (bytes "type_") (sql_varchar none)
      ∷ optional (bytes "payload") sql_jsonb
      ∷ required (bytes "state_change_hash") (sql_varchar (some 66))
      ∷ required (bytes "event_root_hash") (sql_varchar (some 66))
      ∷ optional (bytes "state_checkpoint_hash") (sql_varchar (some 66))
      ∷ required (bytes "gas_used") sql_numeric
      ∷ required (bytes "success") sql_bool
      ∷ required (bytes "vm_status") sql_text
      ∷ required (bytes "accumulator_root_hash") (sql_varchar (some 66))
      ∷ required (bytes "num_events") sql_int8
      ∷ required (bytes "num_write_set_changes") sql_int8
      ∷ required (bytes "inserted_at") sql_timestamp
      ∷ required (bytes "epoch") sql_int8
      ∷ optional (bytes "payload_type") (sql_varchar (some 50))
      ∷ [];
}

abbrev pub user_transactions_table : Table
user_transactions_table = record {
  name = bytes "user_transactions";
  primary_key = bytes "version" ∷ [];
  columns =
      required (bytes "version") sql_int8
      ∷ required (bytes "block_height") sql_int8
      ∷ required (bytes "parent_signature_type") (sql_varchar (some 50))
      ∷ required (bytes "sender") (sql_varchar (some 66))
      ∷ required (bytes "sequence_number") sql_int8
      ∷ required (bytes "max_gas_amount") sql_numeric
      ∷ required (bytes "expiration_timestamp_secs") sql_timestamp
      ∷ required (bytes "gas_unit_price") sql_numeric
      ∷ required (bytes "timestamp") sql_timestamp
      ∷ required (bytes "entry_function_id_str") (sql_varchar (some 1000))
      ∷ required (bytes "inserted_at") sql_timestamp
      ∷ required (bytes "epoch") sql_int8
      ∷ [];
}

abbrev pub write_set_changes_table : Table
write_set_changes_table = record {
  name = bytes "write_set_changes";
  primary_key = bytes "transaction_version" ∷ bytes "index" ∷ [];
  columns =
      required (bytes "transaction_version") sql_int8
      ∷ required (bytes "index") sql_int8
      ∷ required (bytes "hash") (sql_varchar (some 66))
      ∷ required (bytes "transaction_block_height") sql_int8
      ∷ required (bytes "type_") sql_text
      ∷ required (bytes "address") (sql_varchar (some 66))
      ∷ required (bytes "inserted_at") sql_timestamp
      ∷ [];
}

abbrev pub write_set_size_info_table : Table
write_set_size_info_table = record {
  name = bytes "write_set_size_info";
  primary_key = bytes "transaction_version" ∷ bytes "index" ∷ [];
  columns =
      required (bytes "transaction_version") sql_int8
      ∷ required (bytes "index") sql_int8
      ∷ required (bytes "key_bytes") sql_int8
      ∷ required (bytes "value_bytes") sql_int8
      ∷ required (bytes "inserted_at") sql_timestamp
      ∷ [];
}
