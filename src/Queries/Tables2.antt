-- ===== src/Queries/Tables2.antt =====
-- The tables collections_v2 to current_delegator_balances of rust/processor/src/schema.rs.
use aptos_indexer_processors.Prelude.{some, [], ◌∷◌, bytes}
use aptos_indexer_processors.Queries.Upsert.{
  Table, required, optional, sql_bool, sql_int8, sql_numeric, sql_text, sql_timestamp, sql_varchar,
}

abbrev pub collections_v2_table : Table
collections_v2_table = record {
  name = bytes "collections_v2";
  primary_key = bytes "transaction_version" ∷ bytes "write_set_change_index" ∷ [];
  columns =
      required (bytes "transaction_version") sql_int8
      ∷ required (bytes "write_set_change_index") sql_int8
      ∷ required (bytes "collection_id") (sql_varchar (some 66))
      ∷ required (bytes "creator_address") (sql_varchar (some 66))
      ∷ required (bytes "collection_name") (sql_varchar (some 128))
      ∷ required (bytes "description") sql_text
      ∷ required (bytes "uri") (sql_varchar (some 512))
      ∷ required (bytes "current_supply") sql_numeric
      ∷ optional (bytes "max_supply") sql_numeric
      ∷ optional (bytes "total_minted_v2") sql_numeric
      ∷ optional (bytes "mutable_description") sql_bool
      ∷ optional (bytes "mutable_uri") sql_bool
      ∷ optional (bytes "table_handle_v1") (sql_varchar (some 66))
      ∷ required (bytes "token_standard") (sql_varchar (some 10))
      ∷ required (bytes "transaction_timestamp") sql_timestamp
      ∷ required (bytes "inserted_at") sql_timestamp
      ∷ [];
}

abbrev pub current_ans_lookup_table : Table
current_ans_lookup_table = record {
  name = bytes "current_ans_lookup";
  primary_key = bytes "domain" ∷ bytes "subdomain" ∷ [];
  columns =
      required (bytes "domain") (sql_varchar (some 64))
      ∷ required (bytes "subdomain") (sql_varchar (some 64))
      ∷ optional (bytes "registered_address") (sql_varchar (some 66))
      ∷ required (bytes "expiration_timestamp") sql_timestamp
      ∷ required (bytes "last_transaction_version") sql_int8
      ∷ required (bytes "inserted_at") sql_timestamp
      ∷ required (bytes "token_name") (sql_varchar (some 140))
      ∷ required (bytes "is_deleted") sql_bool
      ∷ [];
}

abbrev pub current_ans_lookup_v2_table : Table
current_ans_lookup_v2_table = record {
  name = bytes "current_ans_lookup_v2";
  primary_key = bytes "domain" ∷ bytes "subdomain" ∷ bytes "token_standard" ∷ [];
  columns =
      required (bytes "domain") (sql_varchar (some 64))
      ∷ required (bytes "subdomain") (sql_varchar (some 64))
      ∷ required (bytes "token_standard") (sql_varchar (some 10))
      ∷ optional (bytes "token_name") (sql_varchar (some 140))
      ∷ optional (bytes "registered_address") (sql_varchar (some 66))
      ∷ required (bytes "expiration_timestamp") sql_timestamp
      ∷ required (bytes "last_transaction_version") sql_int8
      ∷ required (bytes "is_deleted") sql_bool
      ∷ required (bytes "inserted_at") sql_timestamp
      ∷ optional (bytes "subdomain_expiration_policy") sql_int8
      ∷ [];
}

abbrev pub current_ans_primary_name_table : Table
current_ans_primary_name_table = record {
  name = bytes "current_ans_primary_name";
  primary_key = bytes "registered_address" ∷ [];
  columns =
      required (bytes "registered_address") (sql_varchar (some 66))
      ∷ optional (bytes "domain") (sql_varchar (some 64))
      ∷ optional (bytes "subdomain") (sql_varchar (some 64))
      ∷ optional (bytes "token_name") (sql_varchar (some 140))
      ∷ required (bytes "is_deleted") sql_bool
      ∷ required (bytes "last_transaction_version") sql_int8
      ∷ required (bytes "inserted_at") sql_timestamp
      ∷ [];
}

abbrev pub current_ans_primary_name_v2_table : Table
current_ans_primary_name_v2_table = record {
  name = bytes "current_ans_primary_name_v2";
  primary_key = bytes "registered_address" ∷ bytes "token_standard" ∷ [];
  columns =
      required (bytes "registered_address") (sql_varchar (some 66))
      ∷ required (bytes "token_standard") (sql_varchar (some 10))
      ∷ optional (bytes "domain") (sql_varchar (some 64))
      ∷ optional (bytes "subdomain") (sql_varchar (some 64))
      ∷ optional (bytes "token_name") (sql_varchar (some 140))
      ∷ required (bytes "is_deleted") sql_bool
      ∷ required (bytes "last_transaction_version") sql_int8
      ∷ required (bytes "inserted_at") sql_timestamp
      ∷ [];
}

abbrev pub current_coin_balances_table : Table
current_coin_balances_table = record {
  name = bytes "current_coin_balances";
  primary_key = bytes "owner_address" ∷ bytes "coin_type_hash" ∷ [];
  columns =
      required (bytes "owner_address") (sql_varchar (some 66))
      ∷ required (bytes "coin_type_hash") (sql_varchar (some 64))
      ∷ required (bytes "coin_type") (sql_varchar (some 5000))
      ∷ required (bytes "amount") sql_numeric
      ∷ required (bytes "last_transaction_version") sql_int8
      ∷ required (bytes "last_transaction_timestamp") sql_timestamp
      ∷ required (bytes "inserted_at") sql_timestamp
      ∷ [];
}

abbrev pub current_collection_datas_table : Table
current_collection_datas_table = record {
  name = bytes "current_collection_datas";
  primary_key = bytes "collection_data_id_hash" ∷ [];
  columns =
      required (bytes "collection_data_id_hash") (sql_varchar (some 64))
      ∷ required (bytes "creator_address") (sql_varchar (some 66))
      ∷ required (bytes "collection_name") (sql_varchar (some 128))
      ∷ required (bytes "description") sql_text
      ∷ required (bytes "metadata_uri") (sql_varchar (some 512))
      ∷ required (bytes "supply") sql_numeric
      ∷ required (bytes "maximum") sql_numeric
      ∷ required (bytes "maximum_mutable") sql_bool
      ∷ required (bytes "uri_mutable") sql_bool
      ∷ required (bytes "description_mutable") sql_bool
      ∷ required (bytes "last_transaction_version") sql_int8
      ∷ required (bytes "inserted_at") sql_timestamp
      ∷ required (bytes "table_handle") (sql_varchar (some 66))
      ∷ required (bytes "last_transaction_timestamp") sql_timestamp
      ∷ [];
}

abbrev pub current_collections_v2_table : Table
current_collections_v2_table = record {
  name = bytes "current_collections_v2";
  primary_key = bytes "collection_id" ∷ [];
  columns =
      required (bytes "collection_id") (sql_varchar (some 66))
      ∷ required (bytes "creator_address") (sql_varchar (some 66))
      ∷ required (bytes "collection_name") (sql_varchar (some 128))
      ∷ required (bytes "description") sql_text
      ∷ required (bytes "uri") (sql_varchar (some 512))
      ∷ required (bytes "current_supply") sql_numeric
      ∷ optional (bytes "max_supply") sql_numeric
      ∷ optional (bytes "total_minted_v2") sql_numeric
      ∷ optional (bytes "mutable_description") sql_bool
      ∷ optional (bytes "mutable_uri") sql_bool
      ∷ optional (bytes "table_handle_v1") (sql_varchar (some 66))
      ∷ required (bytes "token_standard") (sql_varchar (some 10))
      ∷ required (bytes "last_transaction_version") sql_int8
      ∷ required (bytes "last_transaction_timestamp") sql_timestamp
      ∷ required (bytes "inserted_at") sql_timestamp
      ∷ [];
}

abbrev pub current_delegated_staking_pool_balances_table : Table
current_delegated_staking_pool_balances_table = record {
  name = bytes "current_delegated_staking_pool_balances";
  primary_key = bytes "staking_pool_address" ∷ [];
  columns =
      required (bytes "staking_pool_address") (sql_varchar (some 66))
      ∷ required (bytes "total_coins") sql_numeric
      ∷ required (bytes "total_shares") sql_numeric
      ∷ required (bytes "last_transaction_version") sql_int8
      ∷ required (bytes "inserted_at") sql_timestamp
      ∷ required (bytes "operator_commission_percentage") sql_numeric
      ∷ required (bytes "inactive_table_handle") (sql_varchar (some 66))
      ∷ required (bytes "active_table_handle") (sql_varchar (some 66))
      ∷ [];
}

abbrev pub current_delegated_voter_table : Table
current_delegated_voter_table = record {
  name = bytes "current_delegated_voter";
  primary_key = bytes "delegation_pool_address" ∷ bytes "delegator_address" ∷ [];
  columns =
      required (bytes "delegation_pool_address") (sql_varchar (some 66))
      ∷ required (bytes "delegator_address") (sql_varchar (some 66))
      ∷ optional (bytes "table_handle") (sql_varchar (some 66))
      ∷ optional (bytes "voter") (sql_varchar (some 66))
      ∷ optional (bytes "pending_voter") (sql_varchar (some 66))
      ∷ required (bytes "last_transaction_version") sql_int8
      ∷ required (bytes "last_transaction_timestamp") sql_timestamp
      ∷ required (bytes "inserted_at") sql_timestamp
      ∷ [];
}

abbrev pub current_delegator_balances_table : Table
current_delegator_balances_table = record {
  name = bytes "current_delegator_balances";
  primary_key =
      bytes "delegator_address"
      ∷ bytes "pool_address"
      ∷ bytes "pool_type"
      ∷ bytes "table_handle"
      ∷ [];
  columns =
      required (bytes "delegator_address") (sql_varchar (some 66))
      ∷ required (bytes "pool_address") (sql_varchar (some 66))
      ∷ required (bytes "pool_type") (sql_varchar (some 100))
      ∷ required (bytes "table_handle") (sql_varchar (some 66))
      ∷ required (bytes "last_transaction_version") sql_int8
      ∷ required (bytes "inserted_at") sql_timestamp
      ∷ required (bytes "shares") sql_numeric
      ∷ required (bytes "parent_table_handle") (sql_varchar (some 66))
      ∷ [];
}
