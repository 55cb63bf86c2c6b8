-- ===== src/Queries/FungibleAssets.antt =====
-- The insert queries of rust/processor/src/processors/fungible_asset_processor.rs.
use aptos_indexer_processors.Prelude.{some, none, List, [], ◌∷◌, bytes}
use aptos_indexer_processors.Queries.Upsert.{Upsert, do_nothing, do_update}
use aptos_indexer_processors.Queries.Tables3.{current_fungible_asset_balances_table}
use aptos_indexer_processors.Queries.Tables4.{
  fungible_asset_activities_table, fungible_asset_balances_table, fungible_asset_metadata_table,
}

abbrev pub insert_fungible_asset_activities_query : Upsert
insert_fungible_asset_activities_query = record {
  table = fungible_asset_activities_table;
  on_conflict = bytes "transaction_version" ∷ bytes "event_index" ∷ [];
  action = do_nothing;
  clause = none;
}

abbrev pub insert_fungible_asset_metadata_query : Upsert
insert_fungible_asset_metadata_query = record {
  table = fungible_asset_metadata_table;
  on_conflict = bytes "asset_type" ∷ [];
  action = do_update (
      bytes "creator_address"
      ∷ bytes "name"
      ∷ bytes "symbol"
      ∷ bytes "decimals"
      ∷ bytes "icon_uri"
      ∷ bytes "project_uri"
      ∷ bytes "last_transaction_version"
      ∷ bytes "last_transaction_timestamp"
      ∷ bytes "supply_aggregator_table_handle_v1"
      ∷ bytes "supply_aggregator_table_key_v1"
      ∷ bytes "token_standard"
      ∷ bytes "inserted_at"
      ∷ bytes "is_token_v2"
      ∷ bytes "supply_v2"
      ∷ bytes "maximum_v2"
      ∷ []);
  clause = some (
      bytes
        " WHERE fungible_asset_metadata.last_transaction_version <= excluded.last_transaction_version ");
}

abbrev pub insert_fungible_asset_balances_query : Upsert
insert_fungible_asset_balances_query = record {
  table = fungible_asset_balances_table;
  on_conflict = bytes "transaction_version" ∷ bytes "write_set_change_index" ∷ [];
  action = do_nothing;
  clause = none;
}

abbrev pub insert_current_fungible_asset_balances_query : Upsert
insert_current_fungible_asset_balances_query = record {
  table = current_fungible_asset_balances_table;
  on_conflict = bytes "storage_id" ∷ [];
  action = do_update (
      bytes "owner_address"
      ∷ bytes "asset_type"
      ∷ bytes "is_primary"
      ∷ bytes "is_frozen"
      ∷ bytes "amount"
      ∷ bytes "last_transaction_timestamp"
      ∷ bytes "last_transaction_version"
      ∷ bytes "token_standard"
      ∷ bytes "inserted_at"
      ∷ []);
  clause = some (
      bytes
        " WHERE current_fungible_asset_balances.last_transaction_version <= excluded.last_transaction_version ");
}

abbrev pub fungible_assets_upserts : List Upsert
fungible_assets_upserts =
    insert_fungible_asset_activities_query ∷ insert_fungible_asset_metadata_query
    ∷ insert_fungible_asset_balances_query ∷ insert_current_fungible_asset_balances_query ∷ []
