-- ===== src/Queries/Tables3.antt =====
-- The tables current_fungible_asset_balances to current_token_v2_metadata of rust/processor/src/schema.rs.
use aptos_indexer_processors.Prelude.{some, [], ◌∷◌, bytes}
use aptos_indexer_processors.Queries.Upsert.{
  Table, required, optional, sql_bool, sql_int8, sql_jsonb, sql_numeric, sql_text, sql_timestamp,
  sql_varchar,
}

abbrev pub current_fungible_asset_balances_table : Table
current_fungible_asset_balances_table = record {
  name = bytes "current_fungible_asset_balances";
  primary_key = bytes "storage_id" ∷ [];
  columns =
      required (bytes "storage_id") (sql_varchar (some 66))
      ∷ required (bytes "owner_address") (sql_varchar (some 66))
      ∷ required (bytes "asset_type") (sql_varchar (some 1000))
      ∷ required (bytes "is_primary") sql_bool
      ∷ required (bytes "is_frozen") sql_bool
      ∷ required (bytes "amount") sql_numeric
      ∷ required (bytes "last_transaction_timestamp") sql_timestamp
      ∷ required (bytes "last_transaction_version") sql_int8
      ∷ required (bytes "token_standard") (sql_varchar (some 10))
      ∷ required (bytes "inserted_at") sql_timestamp
      ∷ [];
}

abbrev pub current_objects_table : Table
current_objects_table = record {
  name = bytes "current_objects";
  primary_key = bytes "object_address" ∷ [];
  columns =
      required (bytes "object_address") (sql_varchar (some 66))
      ∷ required (bytes "owner_address") (sql_varchar (some 66))
      ∷ required (bytes "state_key_hash") (sql_varchar (some 66))
      ∷ required (bytes "allow_ungated_transfer") sql_bool
      ∷ required (bytes "last_guid_creation_num") sql_numeric
      ∷ required (bytes "last_transaction_version") sql_int8
      ∷ required (bytes "is_deleted") sql_bool
      ∷ required (bytes "inserted_at") sql_timestamp
      ∷ [];
}

abbrev pub current_staking_pool_voter_table : Table
current_staking_pool_voter_table = record {
  name = bytes "current_staking_pool_voter";
  primary_key = bytes "staking_pool_address" ∷ [];
  columns =
      required (bytes "staking_pool_address") (sql_varchar (some 66))
      ∷ required (bytes "voter_address") (sql_varchar (some 66))
      ∷ required (bytes "last_transaction_version") sql_int8
      ∷ required (bytes "inserted_at") sql_timestamp
      ∷ required (bytes "operator_address") (sql_varchar (some 66))
      ∷ [];
}

abbrev pub current_table_items_table : Table
current_table_items_table = record {
  name = bytes "current_table_items";
  primary_key = bytes "table_handle" ∷ bytes "key_hash" ∷ [];
  columns =
      required (bytes "table_handle") (sql_varchar (some 66))
      ∷ required (bytes "key_hash") (sql_varchar (some 64))
      ∷ required (bytes "key") sql_text
      ∷ required (bytes "decoded_key") sql_jsonb
      ∷ optional (bytes "decoded_value") sql_jsonb
      ∷ required (bytes "is_deleted") sql_bool
      ∷ required (bytes "last_transaction_version") sql_int8
      ∷ required (bytes "inserted_at") sql_timestamp
      ∷ [];
}

abbrev pub current_token_datas_table : Table
current_token_datas_table = record {
  name = bytes "current_token_datas";
  primary_key = bytes "token_data_id_hash" ∷ [];
  columns =
      required (bytes "token_data_id_hash") (sql_varchar (some 64))
      ∷ required (bytes "creator_address") (sql_varchar (some 66))
      ∷ required (bytes "collection_name") (sql_varchar (some 128))
      ∷ required (bytes "name") (sql_varchar (some 128))
      ∷ required (bytes "maximum") sql_numeric
      ∷ required (bytes "supply") sql_numeric
      ∷ required (bytes "largest_property_version") sql_numeric
      ∷ required (bytes "metadata_uri") (sql_varchar (some 512))
      ∷ required (bytes "payee_address") (sql_varchar (some 66))
      ∷ required (bytes "royalty_points_numerator") sql_numeric
      ∷ required (bytes "royalty_points_denominator") sql_numeric
      ∷ required (bytes "maximum_mutable") sql_bool
      ∷ required (bytes "uri_mutable") sql_bool
      ∷ required (bytes "description_mutable") sql_bool
      ∷ required (bytes "properties_mutable") sql_bool
      ∷ required (bytes "royalty_mutable") sql_bool
      ∷ required (bytes "default_properties") sql_jsonb
      ∷ required (bytes "last_transaction_version") sql_int8
      ∷ required (bytes "inserted_at") sql_timestamp
      ∷ required (bytes "collection_data_id_hash") (sql_varchar (some 64))
      ∷ required (bytes "last_transaction_timestamp") sql_timestamp
      ∷ required (bytes "description") sql_text
      ∷ [];
}

abbrev pub current_token_datas_v2_table : Table
current_token_datas_v2_table = record {
  name = bytes "current_token_datas_v2";
  primary_key = bytes "token_data_id" ∷ [];
  columns =
      required (bytes "token_data_id") (sql_varchar (some 66))
      ∷ required (bytes "collection_id") (sql_varchar (some 66))
      ∷ required (bytes "token_name") (sql_varchar (some 128))
      ∷ optional (bytes "maximum") sql_numeric
      ∷ optional (bytes "supply") sql_numeric
      ∷ optional (bytes "largest_property_version_v1") sql_numeric
      ∷ required (bytes "token_uri") (sql_varchar (some 512))
      ∷ required (bytes "description") sql_text
      ∷ required (bytes "token_properties") sql_jsonb
      ∷ required (bytes "token_standard") (sql_varchar (some 10))
      ∷ optional (bytes "is_fungible_v2") sql_bool
      ∷ required (bytes "last_transaction_version") sql_int8
      ∷ required (bytes "last_transaction_timestamp") sql_timestamp
      ∷ required (bytes "inserted_at") sql_timestamp
      ∷ optional (bytes "decimals") sql_int8
      ∷ optional (bytes "is_deleted_v2") sql_bool
      ∷ [];
}

abbrev pub current_token_ownerships_table : Table
current_token_ownerships_table = record {
  name = bytes "current_token_ownerships";
  primary_key = bytes "token_data_id_hash" ∷ bytes "property_version" ∷ bytes "owner_address" ∷ [];
  columns =
      required (bytes "token_data_id_hash") (sql_varchar (some 64))
      ∷ required (bytes "property_version") sql_numeric
      ∷ required (bytes "owner_address") (sql_varchar (some 66))
      ∷ required (bytes "creator_address") (sql_varchar (some 66))
      ∷ required (bytes "collection_name") (sql_varchar (some 128))
      ∷ required (bytes "name") (sql_varchar (some 128))
      ∷ required (bytes "amount") sql_numeric
      ∷ required (bytes "token_properties") sql_jsonb
      ∷ required (bytes "last_transaction_version") sql_int8
      ∷ required (bytes "inserted_at") sql_timestamp
      ∷ required (bytes "collection_data_id_hash") (sql_varchar (some 64))
      ∷ required (bytes "table_type") sql_text
      ∷ required (bytes "last_transaction_timestamp") sql_timestamp
      ∷ [];
}

abbrev pub current_token_ownerships_v2_table : Table
current_token_ownerships_v2_table = record {
  name = bytes "current_token_ownerships_v2";
  primary_key =
      bytes "token_data_id"
      ∷ bytes "property_version_v1"
      ∷ bytes "owner_address"
      ∷ bytes "storage_id"
      ∷ [];
  columns =
      required (bytes "token_data_id") (sql_varchar (some 66))
      ∷ required (bytes "property_version_v1") sql_numeric
      ∷ required (bytes "owner_address") (sql_varchar (some 66))
      ∷ required (bytes "storage_id") (sql_varchar (some 66))
      ∷ required (bytes "amount") sql_numeric
      ∷ optional (bytes "table_type_v1") (sql_varchar (some 66))
      ∷ optional (bytes "token_properties_mutated_v1") sql_jsonb
      ∷ optional (bytes "is_soulbound_v2") sql_bool
      ∷ required (bytes "token_standard") (sql_varchar (some 10))
      ∷ optional (bytes "is_fungible_v2") sql_bool
      ∷ required (bytes "last_transaction_version") sql_int8
      ∷ required (bytes "last_transaction_timestamp") sql_timestamp
      ∷ required (bytes "inserted_at") sql_timestamp
      ∷ optional (bytes "non_transferrable_by_owner") sql_bool
      ∷ [];
}

abbrev pub current_token_pending_claims_table : Table
current_token_pending_claims_table = record {
  name = bytes "current_token_pending_claims";
  primary_key =
      bytes "token_data_id_hash"
      ∷ bytes "property_version"
      ∷ bytes "from_address"
      ∷ bytes "to_address"
      ∷ [];
  columns =
      required (bytes "token_data_id_hash") (sql_varchar (some 64))
      ∷ required (bytes "property_version") sql_numeric
      ∷ required (bytes "from_address") (sql_varchar (some 66))
      ∷ required (bytes "to_address") (sql_varchar (some 66))
      ∷ required (bytes "collection_data_id_hash") (sql_varchar (some 64))
      ∷ required (bytes "creator_address") (sql_varchar (some 66))
      ∷ required (bytes "collection_name") (sql_varchar (some 128))
      ∷ required (bytes "name") (sql_varchar (some 128))
      ∷ required (bytes "amount") sql_numeric
      ∷ required (bytes "table_handle") (sql_varchar (some 66))
      ∷ required (bytes "last_transaction_version") sql_int8
      ∷ required (bytes "inserted_at") sql_timestamp
      ∷ required (bytes "last_transaction_timestamp") sql_timestamp
      ∷ required (bytes "token_data_id") (sql_varchar (some 66))
      ∷ required (bytes "collection_id") (sql_varchar (some 66))
      ∷ [];
}

abbrev pub current_token_v2_metadata_table : Table
current_token_v2_metadata_table = record {
  name = bytes "current_token_v2_metadata";
  primary_key = bytes "object_address" ∷ bytes "resource_type" ∷ [];
  columns =
      required (bytes "object_address") (sql_varchar (some 66))
      ∷ required (bytes "resource_type") (sql_varchar (some 128))
      ∷ required (bytes "data") sql_jsonb
      ∷ required (bytes "state_key_hash") (sql_varchar (some 66))
      ∷ required (bytes "last_transaction_version") sql_int8
      ∷ required (bytes "inserted_at") sql_timestamp
      ∷ [];
}
