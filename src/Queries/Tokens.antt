-- ===== src/Queries/Tokens.antt =====
-- The insert queries of rust/processor/src/processors/token_processor.rs.
use aptos_indexer_processors.Prelude.{some, none, List, [], ◌∷◌, bytes}
use aptos_indexer_processors.Queries.Upsert.{Upsert, do_nothing, do_update}
use aptos_indexer_processors.Queries.Tables1.{collection_datas_table}
use aptos_indexer_processors.Queries.Tables2.{current_collection_datas_table}
use aptos_indexer_processors.Queries.Tables3.{
  current_token_datas_table, current_token_ownerships_table, current_token_pending_claims_table,
}
use aptos_indexer_processors.Queries.Tables5.{
  nft_points_table, token_activities_table, token_datas_table,
}
use aptos_indexer_processors.Queries.Tables6.{token_ownerships_table, tokens_table}

abbrev pub insert_tokens_query : Upsert
insert_tokens_query = record {
  table = tokens_table;
  on_conflict =
      bytes "token_data_id_hash" ∷ bytes "property_version" ∷ bytes "transaction_version" ∷ [];
  action = do_nothing;
  clause = none;
}

abbrev pub insert_token_ownerships_query : Upsert
insert_token_ownerships_query = record {
  table = token_ownerships_table;
  on_conflict =
      bytes "token_data_id_hash"
      ∷ bytes "property_version"
      ∷ bytes "transaction_version"
      ∷ bytes "table_handle"
      ∷ [];
  action = do_nothing;
  clause = none;
}

abbrev pub insert_token_datas_query : Upsert
insert_token_datas_query = record {
  table = token_datas_table;
  on_conflict = bytes "token_data_id_hash" ∷ bytes "transaction_version" ∷ [];
  action = do_nothing;
  clause = none;
}

abbrev pub insert_collection_datas_query : Upsert
insert_collection_datas_query = record {
  table = collection_datas_table;
  on_conflict = bytes "collection_data_id_hash" ∷ bytes "transaction_version" ∷ [];
  action = do_nothing;
  clause = none;
}

abbrev pub insert_current_token_ownerships_query : Upsert
insert_current_token_ownerships_query = record {
  table = current_token_ownerships_table;
  on_conflict = bytes "token_data_id_hash" ∷ bytes "property_version" ∷ bytes "owner_address" ∷ [];
  action = do_update (
      bytes "creator_address"
      ∷ bytes "collection_name"
      ∷ bytes "name"
      ∷ bytes "amount"
      ∷ bytes "token_properties"
      ∷ bytes "last_transaction_version"
      ∷ bytes "collection_data_id_hash"
      ∷ bytes "table_type"
      ∷ bytes "inserted_at"
      ∷ []);
  clause = some (
      bytes
        " WHERE current_token_ownerships.last_transaction_version <= excluded.last_transaction_version ");
}

abbrev pub insert_current_token_datas_query : Upsert
insert_current_token_datas_query = record {
  table = current_token_datas_table;
  on_conflict = bytes "token_data_id_hash" ∷ [];
  action = do_update (
      bytes "creator_address"
      ∷ bytes "collection_name"
      ∷ bytes "name"
      ∷ bytes "maximum"
      ∷ bytes "supply"
      ∷ bytes "largest_property_version"
      ∷ bytes "metadata_uri"
      ∷ bytes "payee_address"
      ∷ bytes "royalty_points_numerator"
      ∷ bytes "royalty_points_denominator"
      ∷ bytes "maximum_mutable"
      ∷ bytes "uri_mutable"
      ∷ bytes "description_mutable"
      ∷ bytes "properties_mutable"
      ∷ bytes "royalty_mutable"
      ∷ bytes "default_properties"
      ∷ bytes "last_transaction_version"
      ∷ bytes "collection_data_id_hash"
      ∷ bytes "description"
      ∷ bytes "inserted_at"
      ∷ []);
  clause = some (
      bytes
        " WHERE current_token_datas.last_transaction_version <= excluded.last_transaction_version ");
}

abbrev pub insert_current_collection_datas_query : Upsert
insert_current_collection_datas_query = record {
  table = current_collection_datas_table;
  on_conflict = bytes "collection_data_id_hash" ∷ [];
  action = do_update (
      bytes "creator_address"
      ∷ bytes "collection_name"
      ∷ bytes "description"
      ∷ bytes "metadata_uri"
      ∷ bytes "supply"
      ∷ bytes "maximum"
      ∷ bytes "maximum_mutable"
      ∷ bytes "uri_mutable"
      ∷ bytes "description_mutable"
      ∷ bytes "last_transaction_version"
      ∷ bytes "table_handle"
      ∷ bytes "inserted_at"
      ∷ []);
  clause = some (
      bytes
        " WHERE current_collection_datas.last_transaction_version <= excluded.last_transaction_version ");
}

abbrev pub insert_token_activities_query : Upsert
insert_token_activities_query = record {
  table = token_activities_table;
  on_conflict =
      bytes "transaction_version"
      ∷ bytes "event_account_address"
      ∷ bytes "event_creation_number"
      ∷ bytes "event_sequence_number"
      ∷ [];
  action = do_nothing;
  clause = none;
}

abbrev pub insert_current_token_claims_query : Upsert
insert_current_token_claims_query = record {
  table = current_token_pending_claims_table;
  on_conflict =
      bytes "token_data_id_hash"
      ∷ bytes "property_version"
      ∷ bytes "from_address"
      ∷ bytes "to_address"
      ∷ [];
  action = do_update (
      bytes "collection_data_id_hash"
      ∷ bytes "creator_address"
      ∷ bytes "collection_name"
      ∷ bytes "name"
      ∷ bytes "amount"
      ∷ bytes "table_handle"
      ∷ bytes "last_transaction_version"
      ∷ bytes "inserted_at"
      ∷ bytes "token_data_id"
      ∷ bytes "collection_id"
      ∷ []);
  clause = some (
      bytes
        " WHERE current_token_pending_claims.last_transaction_version <= excluded.last_transaction_version ");
}

abbrev pub insert_nft_points_query : Upsert
insert_nft_points_query = record {
  table = nft_points_table;
  on_conflict = bytes "transaction_version" ∷ [];
  action = do_nothing;
  clause = none;
}

abbrev pub tokens_upserts : List Upsert
tokens_upserts =
    insert_tokens_query ∷ insert_token_ownerships_query ∷ insert_token_datas_query
    ∷ insert_collection_datas_query ∷ insert_current_token_ownerships_query
    ∷ insert_current_token_datas_query ∷ insert_current_collection_datas_query
    ∷ insert_token_activities_query ∷ insert_current_token_claims_query ∷ insert_nft_points_query
    ∷ []
