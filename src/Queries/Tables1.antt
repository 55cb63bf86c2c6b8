-- ===== src/Queries/Tables1.antt =====
-- The tables account_transactions to collection_datas of rust/processor/src/schema.rs.
use aptos_indexer_processors.Prelude.{some, [], ◌∷◌, bytes}
use aptos_indexer_processors.Queries.Upsert.{
  Table, required, optional, sql_bool, sql_int4, sql_int8, sql_jsonb, sql_numeric, sql_text,
  sql_timestamp, sql_varchar,
}

abbrev pub account_transactions_table : Table
account_transactions_table = record {
  name = bytes "account_transactions";
  primary_key = bytes "account_address" ∷ bytes "transaction_version" ∷ [];
  columns =
      required (bytes "transaction_version") sql_int8
      ∷ required (bytes "account_address") (sql_varchar (some 66))
      ∷ required (bytes "inserted_at") sql_timestamp
      ∷ [];
}

abbrev pub ans_lookup_table : Table
ans_lookup_table = record {
  name = bytes "ans_lookup";
  primary_key = bytes "transaction_version" ∷ bytes "write_set_change_index" ∷ [];
  columns =
      required (bytes "transaction_version") sql_int8
      ∷ required (bytes "write_set_change_index") sql_int8
      ∷ required (bytes "domain") (sql_varchar (some 64))
      ∷ required (bytes "subdomain") (sql_varchar (some 64))
      ∷ optional (bytes "registered_address") (sql_varchar (some 66))
      ∷ optional (bytes "expiration_timestamp") sql_timestamp
      ∷ required (bytes "token_name") (sql_varchar (some 140))
      ∷ required (bytes "is_deleted") sql_bool
      ∷ required (bytes "inserted_at") sql_timestamp
      ∷ [];
}

abbrev pub ans_lookup_v2_table : Table
ans_lookup_v2_table = record {
  name = bytes "ans_lookup_v2";
  primary_key = bytes "transaction_version" ∷ bytes "write_set_change_index" ∷ [];
  columns =
      required (bytes "transaction_version") sql_int8
      ∷ required (bytes "write_set_change_index") sql_int8
      ∷ required (bytes "domain") (sql_varchar (some 64))
      ∷ required (bytes "subdomain") (sql_varchar (some 64))
      ∷ required (bytes "token_standard") (sql_varchar (some 10))
      ∷ optional (bytes "registered_address") (sql_varchar (some 66))
      ∷ optional (bytes "expiration_timestamp") sql_timestamp
      ∷ required (bytes "token_name") (sql_varchar (some 140))
      ∷ required (bytes "is_deleted") sql_bool
      ∷ required (bytes "inserted_at") sql_timestamp
      ∷ optional (bytes "subdomain_expiration_policy") sql_int8
      ∷ [];
}

abbrev pub ans_primary_name_table : Table
ans_primary_name_table = record {
  name = bytes "ans_primary_name";
  primary_key = bytes "transaction_version" ∷ bytes "write_set_change_index" ∷ [];
  columns =
      required (bytes "transaction_version") sql_int8
      ∷ required (bytes "write_set_change_index") sql_int8
      ∷ required (bytes "registered_address") (sql_varchar (some 66))
      ∷ optional (bytes "domain") (sql_varchar (some 64))
      ∷ optional (bytes "subdomain") (sql_varchar (some 64))
      ∷ optional (bytes "token_name") (sql_varchar (some 140))
      ∷ required (bytes "is_deleted") sql_bool
      ∷ required (bytes "inserted_at") sql_timestamp
      ∷ [];
}

abbrev pub ans_primary_name_v2_table : Table
ans_primary_name_v2_table = record {
  name = bytes "ans_primary_name_v2";
  primary_key = bytes "transaction_version" ∷ bytes "write_set_change_index" ∷ [];
  columns =
      required (bytes "transaction_version") sql_int8
      ∷ required (bytes "write_set_change_index") sql_int8
      ∷ required (bytes "registered_address") (sql_varchar (some 66))
      ∷ optional (bytes "domain") (sql_varchar (some 64))
      ∷ optional (bytes "subdomain") (sql_varchar (some 64))
      ∷ required (bytes "token_standard") (sql_varchar (some 10))
      ∷ optional (bytes "token_name") (sql_varchar (some 140))
      ∷ required (bytes "is_deleted") sql_bool
      ∷ required (bytes "inserted_at") sql_timestamp
      ∷ [];
}

abbrev pub block_metadata_transactions_table : Table
block_metadata_transactions_table = record {
  name = bytes "block_metadata_transactions";
  primary_key = bytes "version" ∷ [];
  columns =
      required (bytes "version") sql_int8
      ∷ required (bytes "block_height") sql_int8
      ∷ required (bytes "id") (sql_varchar (some 66))
      ∷ required (bytes "round") sql_int8
      ∷ required (bytes "epoch") sql_int8
      ∷ required (bytes "previous_block_votes_bitvec") sql_jsonb
      ∷ required (bytes "proposer") (sql_varchar (some 66))
      ∷ required (bytes "failed_proposer_indices") sql_jsonb
      ∷ required (bytes "timestamp") sql_timestamp
      ∷ required (bytes "inserted_at") sql_timestamp
      ∷ [];
}

abbrev pub coin_activities_table : Table
coin_activities_table = record {
  name = bytes "coin_activities";
  primary_key =
      bytes "transaction_version"
      ∷ bytes "event_account_address"
      ∷ bytes "event_creation_number"
      ∷ bytes "event_sequence_number"
      ∷ [];
  columns =
      required (bytes "transaction_version") sql_int8
      ∷ required (bytes "event_account_address") (sql_varchar (some 66))
      ∷ required (bytes "event_creation_number") sql_int8
      ∷ required (bytes "event_sequence_number") sql_int8
      ∷ required (bytes "owner_address") (sql_varchar (some 66))
      ∷ required (bytes "coin_type") (sql_varchar (some 5000))
      ∷ required (bytes "amount") sql_numeric
      ∷ required (bytes "activity_type") (sql_varchar (some 200))
      ∷ required (bytes "is_gas_fee") sql_bool
      ∷ required (bytes "is_transaction_success") sql_bool
      ∷ optional (bytes "entry_function_id_str") (sql_varchar (some 1000))
      ∷ required (bytes "block_height") sql_int8
      ∷ required (bytes "transaction_timestamp") sql_timestamp
      ∷ required (bytes "inserted_at") sql_timestamp
      ∷ optional (bytes "event_index") sql_int8
      ∷ optional (bytes "gas_fee_payer_address") (sql_varchar (some 66))
      ∷ required (bytes "storage_refund_amount") sql_numeric
      ∷ [];
}

abbrev pub coin_balances_table : Table
coin_balances_table = record {
  name = bytes "coin_balances";
  primary_key = bytes "transaction_version" ∷ bytes "owner_address" ∷ bytes "coin_type_hash" ∷ [];
  columns =
      required (bytes "transaction_version") sql_int8
      ∷ required (bytes "owner_address") (sql_varchar (some 66))
      ∷ required (bytes "coin_type_hash") (sql_varchar (some 64))
      ∷ required (bytes "coin_type") (sql_varchar (some 5000))
      ∷ required (bytes "amount") sql_numeric
      ∷ required (bytes "transaction_timestamp") sql_timestamp
      ∷ required (bytes "inserted_at") sql_timestamp
      ∷ [];
}

abbrev pub coin_infos_table : Table
coin_infos_table = record {
  name = bytes "coin_infos";
  primary_key = bytes "coin_type_hash" ∷ [];
  columns =
      required (bytes "coin_type_hash") (sql_varchar (some 64))
      ∷ required (bytes "coin_type") (sql_varchar (some 5000))
      ∷ required (bytes "transaction_version_created") sql_int8
      ∷ required (bytes "creator_address") (sql_varchar (some 66))
      ∷ required (bytes "name") (sql_varchar (some 32))
      ∷ required (bytes "symbol") (sql_varchar (some 10))
      ∷ required (bytes "decimals") sql_int4
      ∷ required (bytes "transaction_created_timestamp") sql_timestamp
      ∷ required (bytes "inserted_at") sql_timestamp
      ∷ optional (bytes "supply_aggregator_table_handle") (sql_varchar (some 66))
      ∷ optional (bytes "supply_aggregator_table_key") sql_text
      ∷ [];
}

abbrev pub coin_supply_table : Table
coin_supply_table = record {
  name = bytes "coin_supply";
  primary_key = bytes "transaction_version" ∷ bytes "coin_type_hash" ∷ [];
  columns =
      required (bytes "transaction_version") sql_int8
      ∷ required (bytes "coin_type_hash") (sql_varchar (some 64))
      ∷ required (bytes "coin_type") (sql_varchar (some 5000))
      ∷ required (bytes "supply") sql_numeric
      ∷ required (bytes "transaction_timestamp") sql_timestamp
      ∷ required (bytes "transaction_epoch") sql_int8
      ∷ required (bytes "inserted_at") sql_timestamp
      ∷ [];
}

abbrev pub collection_datas_table : Table
collection_datas_table = record {
  name = bytes "collection_datas";
  primary_key = bytes "collection_data_id_hash" ∷ bytes "transaction_version" ∷ [];
  columns =
      required (bytes "collection_data_id_hash") (sql_varchar (some 64))
      ∷ required (bytes "transaction_version") sql_int8
      ∷ required (bytes "creator_address") (sql_varchar (some 66))
      ∷ required (bytes "collection_name") (sql_varchar (some 128))
      ∷ required (bytes "description") sql_text
      ∷ required (bytes "metadata_uri") (sql_varchar (some 512))
      ∷ required (bytes "supply") sql_numeric
      ∷ required (bytes "maximum") sql_numeric
      ∷ required (bytes "maximum_mutable") sql_bool
      ∷ required (bytes "uri_mutable") sql_bool
      ∷ required (bytes "description_mutable") sql_bool
      ∷ required (bytes "inserted_at") sql_timestamp
      ∷ required (bytes "table_handle") (sql_varchar (some 66))
      ∷ required (bytes "transaction_timestamp") sql_timestamp
      ∷ [];
}
