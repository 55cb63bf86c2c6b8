-- ===== src/Queries/TokensV2.antt =====
-- The insert queries of rust/processor/src/processors/token_v2_processor.rs.
use aptos_indexer_processors.Prelude.{some, none, List, [], ◌∷◌, bytes}
use aptos_indexer_processors.Queries.Upsert.{Upsert, do_nothing, do_update}
use aptos_indexer_processors.Queries.Tables2.{collections_v2_table, current_collections_v2_table}
use aptos_indexer_processors.Queries.Tables3.{
  current_token_datas_v2_table, current_token_ownerships_v2_table, current_token_v2_metadata_table,
}
use aptos_indexer_processors.Queries.Tables5.{token_activities_v2_table, token_datas_v2_table}
use aptos_indexer_processors.Queries.Tables6.{token_ownerships_v2_table}

abbrev pub insert_collections_v2_query : Upsert
insert_collections_v2_query = record {
  table = collections_v2_table;
  on_conflict = bytes "transaction_version" ∷ bytes "write_set_change_index" ∷ [];
  action = do_nothing;
  clause = none;
}

abbrev pub insert_token_datas_v2_query : Upsert
insert_token_datas_v2_query = record {
  table = token_datas_v2_table;
  on_conflict = bytes "transaction_version" ∷ bytes "write_set_change_index" ∷ [];
  action = do_update (
      bytes "maximum"
      ∷ bytes "supply"
      ∷ bytes "is_fungible_v2"
      ∷ bytes "inserted_at"
      ∷ bytes "decimals"
      ∷ []);
  clause = none;
}

abbrev pub insert_token_ownerships_v2_query : Upsert
insert_token_ownerships_v2_query = record {
  table = token_ownerships_v2_table;
  on_conflict = bytes "transaction_version" ∷ bytes "write_set_change_index" ∷ [];
  action = do_update (bytes "is_fungible_v2" ∷ bytes "inserted_at" ∷ []);
  clause = none;
}

abbrev pub insert_current_collections_v2_query : Upsert
insert_current_collections_v2_query = record {
  table = current_collections_v2_table;
  on_conflict = bytes "collection_id" ∷ [];
  action = do_update (
      bytes "creator_address"
      ∷ bytes "collection_name"
      ∷ bytes "description"
      ∷ bytes "uri"
      ∷ bytes "current_supply"
      ∷ bytes "max_supply"
      ∷ bytes "total_minted_v2"
      ∷ bytes "mutable_description"
      ∷ bytes "mutable_uri"
      ∷ bytes "table_handle_v1"
      ∷ bytes "token_standard"
      ∷ bytes "last_transaction_version"
      ∷ bytes "last_transaction_timestamp"
      ∷ bytes "inserted_at"
      ∷ []);
  clause = some (
      bytes
        " WHERE current_collections_v2.last_transaction_version <= excluded.last_transaction_version ");
}

abbrev pub insert_current_token_datas_v2_query : Upsert
insert_current_token_datas_v2_query = record {
  table = current_token_datas_v2_table;
  on_conflict = bytes "token_data_id" ∷ [];
  action = do_update (
      bytes "collection_id"
      ∷ bytes "token_name"
      ∷ bytes "maximum"
      ∷ bytes "supply"
      ∷ bytes "largest_property_version_v1"
      ∷ bytes "token_uri"
      ∷ bytes "description"
      ∷ bytes "token_properties"
      ∷ bytes "token_standard"
      ∷ bytes "is_fungible_v2"
      ∷ bytes "last_transaction_version"
      ∷ bytes "last_transaction_timestamp"
      ∷ bytes "inserted_at"
      ∷ bytes "decimals"
      ∷ []);
  clause = some (
      bytes
        " WHERE current_token_datas_v2.last_transaction_version <= excluded.last_transaction_version ");
}

abbrev pub insert_current_deleted_token_datas_v2_query : Upsert
insert_current_deleted_token_datas_v2_query = record {
  table = current_token_datas_v2_table;
  on_conflict = bytes "token_data_id" ∷ [];
  action = do_update (
      bytes "last_transaction_version"
      ∷ bytes "last_transaction_timestamp"
      ∷ bytes "inserted_at"
      ∷ bytes "is_deleted_v2"
      ∷ []);
  clause = some (
      bytes
        " WHERE current_token_datas_v2.last_transaction_version <= excluded.last_transaction_version ");
}

abbrev pub insert_current_token_ownerships_v2_query : Upsert
insert_current_token_ownerships_v2_query = record {
  table = current_token_ownerships_v2_table;
  on_conflict =
      bytes "token_data_id"
      ∷ bytes "property_version_v1"
      ∷ bytes "owner_address"
      ∷ bytes "storage_id"
      ∷ [];
  action = do_update (
      bytes "amount"
      ∷ bytes "table_type_v1"
      ∷ bytes "token_properties_mutated_v1"
      ∷ bytes "is_soulbound_v2"
      ∷ bytes "token_standard"
      ∷ bytes "is_fungible_v2"
      ∷ bytes "last_transaction_version"
      ∷ bytes "last_transaction_timestamp"
      ∷ bytes "inserted_at"
      ∷ bytes "non_transferrable_by_owner"
      ∷ []);
  clause = some (
      bytes
        " WHERE current_token_ownerships_v2.last_transaction_version <= excluded.last_transaction_version ");
}

abbrev pub insert_current_deleted_token_ownerships_v2_query : Upsert
insert_current_deleted_token_ownerships_v2_query = record {
  table = current_token_ownerships_v2_table;
  on_conflict =
      bytes "token_data_id"
      ∷ bytes "property_version_v1"
      ∷ bytes "owner_address"
      ∷ bytes "storage_id"
      ∷ [];
  action = do_update (
      bytes "amount"
      ∷ bytes "last_transaction_version"
      ∷ bytes "last_transaction_timestamp"
      ∷ bytes "is_fungible_v2"
      ∷ bytes "inserted_at"
      ∷ []);
  clause = some (
      bytes
        " WHERE current_token_ownerships_v2.last_transaction_version <= excluded.last_transaction_version ");
}

abbrev pub insert_token_activities_v2_query : Upsert
insert_token_activities_v2_query = record {
  table = token_activities_v2_table;
  on_conflict = bytes "transaction_version" ∷ bytes "event_index" ∷ [];
  action = do_update (bytes "is_fungible_v2" ∷ bytes "inserted_at" ∷ []);
  clause = none;
}

abbrev pub insert_current_token_v2_metadatas_query : Upsert
insert_current_token_v2_metadatas_query = record {
  table = current_token_v2_metadata_table;
  on_conflict = bytes "object_address" ∷ bytes "resource_type" ∷ [];
  action = do_update (
      bytes "data"
      ∷ bytes "state_key_hash"
      ∷ bytes "last_transaction_version"
      ∷ bytes "inserted_at"
      ∷ []);
  clause = some (
      bytes
        " WHERE current_token_v2_metadata.last_transaction_version <= excluded.last_transaction_version ");
}

abbrev pub tokens_v2_upserts : List Upsert
tokens_v2_upserts =
    insert_collections_v2_query ∷ insert_token_datas_v2_query ∷ insert_token_ownerships_v2_query
    ∷ insert_current_collections_v2_query ∷ insert_current_token_datas_v2_query
    ∷ insert_current_deleted_token_datas_v2_query ∷ insert_current_token_ownerships_v2_query
    ∷ insert_current_deleted_token_ownerships_v2_query ∷ insert_token_activities_v2_query
    ∷ insert_current_token_v2_metadatas_query ∷ []
