-- ===== src/Queries/Tables5.antt =====
-- The tables nft_points to token_datas_v2 of rust/processor/src/schema.rs.
use aptos_indexer_processors.Prelude.{some, none, [], ◌∷◌, bytes}
use aptos_indexer_processors.Queries.Upsert.{
  Table, required, optional, sql_bool, sql_int8, sql_jsonb, sql_numeric, sql_text, sql_timestamp,
  sql_varchar,
}

abbrev pub nft_points_table : Table
nft_points_table = record {
  name = bytes "nft_points";
  primary_key = bytes "transaction_version" ∷ [];
  columns =
      required (bytes "transaction_version") sql_int8
      ∷ required (bytes "owner_address") (sql_varchar (some 66))
      ∷ required (bytes "token_name") sql_text
      ∷ required (bytes "point_type") sql_text
      ∷ required (bytes "amount") sql_numeric
      ∷ required (bytes "transaction_timestamp") sql_timestamp
      ∷ required (bytes "inserted_at") sql_timestamp
      ∷ [];
}

abbrev pub objects_table : Table
objects_table = record {
  name = bytes "objects";
  primary_key = bytes "transaction_version" ∷ bytes "write_set_change_index" ∷ [];
  columns =
      required (bytes "transaction_version") sql_int8
      ∷ required (bytes "write_set_change_index") sql_int8
      ∷ required (bytes "object_address") (sql_varchar (some 66))
      ∷ required (bytes "owner_address") (sql_varchar (some 66))
      ∷ required (bytes "state_key_hash") (sql_varchar (some 66))
      ∷ required (bytes "guid_creation_num") sql_numeric
      ∷ required (bytes "allow_ungated_transfer") sql_bool
      ∷ required (bytes "is_deleted") sql_bool
      ∷ required (bytes "inserted_at") sql_timestamp
      ∷ [];
}

abbrev pub proposal_votes_table : Table
proposal_votes_table = record {
  name = bytes "proposal_votes";
  primary_key = bytes "transaction_version" ∷ bytes "proposal_id" ∷ bytes "voter_address" ∷ [];
  columns =
      required (bytes "transaction_version") sql_int8
      ∷ required (bytes "proposal_id") sql_int8
      ∷ required (bytes "voter_address") (sql_varchar (some 66))
      ∷ required (bytes "staking_pool_address") (sql_varchar (some 66))
      ∷ required (bytes "num_votes") sql_numeric
      ∷ required (bytes "should_pass") sql_bool
      ∷ required (bytes "transaction_timestamp") sql_timestamp
      ∷ required (bytes "inserted_at") sql_timestamp
      ∷ [];
}

abbrev pub signatures_table : Table
signatures_table = record {
  name = bytes "signatures";
  primary_key =
      bytes "transaction_version"
      ∷ bytes "multi_agent_index"
      ∷ bytes "multi_sig_index"
      ∷ bytes "is_sender_primary"
      ∷ [];
  columns =
      required (bytes "transaction_version") sql_int8
      ∷ required (bytes "multi_agent_index") sql_int8
      ∷ required (bytes "multi_sig_index") sql_int8
      ∷ required (bytes "transaction_block_height") sql_int8
      ∷ required (bytes "signer") (sql_varchar (some 66))
      ∷ required (bytes "is_sender_primary") sql_bool
      ∷ required (bytes "type_") (sql_varchar none)
      ∷ required (bytes "public_key") (sql_varchar (some 136))
      ∷ required (bytes "signature") sql_text
      ∷ required (bytes "threshold") sql_int8
      ∷ required (bytes "public_key_indices") sql_jsonb
      ∷ required (bytes "inserted_at") sql_timestamp
      ∷ [];
}

abbrev pub table_items_table : Table
table_items_table = record {
  name = bytes "table_items";
  primary_key = bytes "transaction_version" ∷ bytes "write_set_change_index" ∷ [];
  columns =
      required (bytes "key") sql_text
      ∷ required (bytes "transaction_version") sql_int8
      ∷ required (bytes "write_set_change_index") sql_int8
      ∷ required (bytes "transaction_block_height") sql_int8
      ∷ required (bytes "table_handle") (sql_varchar (some 66))
      ∷ required (bytes "decoded_key") sql_jsonb
      ∷ optional (bytes "decoded_value") sql_jsonb
      ∷ required (bytes "is_deleted") sql_bool
      ∷ required (bytes "inserted_at") sql_timestamp
      ∷ [];
}

abbrev pub table_metadatas_table : Table
table_metadatas_table = record {
  name = bytes "table_metadatas";
  primary_key = bytes "handle" ∷ [];
  columns =
      required (bytes "handle") (sql_varchar (some 66))
      ∷ required (bytes "key_type") sql_text
      ∷ required (bytes "value_type") sql_text
      ∷ required (bytes "inserted_at") sql_timestamp
      ∷ [];
}

abbrev pub token_activities_table : Table
token_activities_table = record {
  name = bytes "token_activities";
  primary_key =
      bytes "transaction_version"
      ∷ bytes "event_account_address"
      ∷ bytes "event_creation_number"
      ∷ bytes "event_sequence_number"
      ∷ [];
  columns =
      required (bytes "transaction_version") sql_int8
      ∷ required (bytes "event_account_address") (sql_varchar (some 66))
      ∷ required (bytes "event_creation_number") sql_int8
      ∷ required (bytes "event_sequence_number") sql_int8
      ∷ required (bytes "collection_data_id_hash") (sql_varchar (some 64))
      ∷ required (bytes "token_data_id_hash") (sql_varchar (some 64))
      ∷ required (bytes "property_version") sql_numeric
      ∷ required (bytes "creator_address") (sql_varchar (some 66))
      ∷ required (bytes "collection_name") (sql_varchar (some 128))
      ∷ required (bytes "name") (sql_varchar (some 128))
      ∷ required (bytes "transfer_type") (sql_varchar (some 50))
      ∷ optional (bytes "from_address") (sql_varchar (some 66))
      ∷ optional (bytes "to_address") (sql_varchar (some 66))
      ∷ required (bytes "token_amount") sql_numeric
      ∷ optional (bytes "coin_type") sql_text
      ∷ optional (bytes "coin_amount") sql_numeric
      ∷ required (bytes "inserted_at") sql_timestamp
      ∷ required (bytes "transaction_timestamp") sql_timestamp
      ∷ optional (bytes "event_index") sql_int8
      ∷ [];
}

abbrev pub token_activities_v2_table : Table
token_activities_v2_table = record {
  name = bytes "token_activities_v2";
  primary_key = bytes "transaction_version" ∷ bytes "event_index" ∷ [];
  columns =
      required (bytes "transaction_version") sql_int8
      ∷ required (bytes "event_index") sql_int8
      ∷ required (bytes "event_account_address") (sql_varchar (some 66))
      ∷ required (bytes "token_data_id") (sql_varchar (some 66))
      ∷ required (bytes "property_version_v1") sql_numeric
      ∷ required (bytes "type_") (sql_varchar none)
      ∷ optional (bytes "from_address") (sql_varchar (some 66))
      ∷ optional (bytes "to_address") (sql_varchar (some 66))
      ∷ required (bytes "token_amount") sql_numeric
      ∷ optional (bytes "before_value") sql_text
      ∷ optional (bytes "after_value") sql_text
      ∷ optional (bytes "entry_function_id_str") (sql_varchar (some 1000))
      ∷ required (bytes "token_standard") (sql_varchar (some 10))
      ∷ optional (bytes "is_fungible_v2") sql_bool
      ∷ required (bytes "transaction_timestamp") sql_timestamp
      ∷ required (bytes "inserted_at") sql_timestamp
      ∷ [];
}

abbrev pub token_datas_table : Table
token_datas_table = record {
  name = bytes "token_datas";
  primary_key = bytes "token_data_id_hash" ∷ bytes "transaction_version" ∷ [];
  columns =
      required (bytes "token_data_id_hash") (sql_varchar (some 64))
      ∷ required (bytes "transaction_version") sql_int8
      ∷ required (bytes "creator_address") (sql_varchar (some 66))
      ∷ required (bytes "collection_name") (sql_varchar (some 128))
      ∷ required (bytes "name") (sql_varchar (some 128))
      ∷ required (bytes "maximum") sql_numeric
      ∷ required (bytes "supply") sql_numeric
      ∷ required (bytes "largest_property_version") sql_numeric
      ∷ required (bytes "metadata_uri") (sql_varchar (some 512))
      ∷ required (bytes "payee_address") (sql_varchar (some 66))
      ∷ required (bytes "royalty_points_numerator") sql_numeric
      ∷ required (bytes "royalty_points_denominator") sql_numeric
      ∷ required (bytes "maximum_mutable") sql_bool
      ∷ required (bytes "uri_mutable") sql_bool
      ∷ required (bytes "description_mutable") sql_bool
      ∷ required (bytes "properties_mutable") sql_bool
      ∷ required (bytes "royalty_mutable") sql_bool
      ∷ required (bytes "default_properties") sql_jsonb
      ∷ required (bytes "inserted_at") sql_timestamp
      ∷ required (bytes "collection_data_id_hash") (sql_varchar (some 64))
      ∷ required (bytes "transaction_timestamp") sql_timestamp
      ∷ required (bytes "description") sql_text
      ∷ [];
}

abbrev pub token_datas_v2_table : Table
token_datas_v2_table = record {
  name = bytes "token_datas_v2";
  primary_key = bytes "transaction_version" ∷ bytes "write_set_change_index" ∷ [];
  columns =
      required (bytes "transaction_version") sql_int8
      ∷ required (bytes "write_set_change_index") sql_int8
      ∷ required (bytes "token_data_id") (sql_varchar (some 66))
      ∷ required (bytes "collection_id") (sql_varchar (some 66))
      ∷ required (bytes "token_name") (sql_varchar (some 128))
      ∷ optional (bytes "maximum") sql_numeric
      ∷ optional (bytes "supply") sql_numeric
      ∷ optional (bytes "largest_property_version_v1") sql_numeric
      ∷ required (bytes "token_uri") (sql_varchar (some 512))
      ∷ required (bytes "token_properties") sql_jsonb
      ∷ required (bytes "description") sql_text
      ∷ required (bytes "token_standard") (sql_varchar (some 10))
      ∷ optional (bytes "is_fungible_v2") sql_bool
      ∷ required (bytes "transaction_timestamp") sql_timestamp
      ∷ required (bytes "inserted_at") sql_timestamp
      ∷ optional (bytes "decimals") sql_int8
      ∷ optional (bytes "is_deleted_v2") sql_bool
      ∷ [];
}
