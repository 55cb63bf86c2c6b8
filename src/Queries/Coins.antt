-- ===== src/Queries/Coins.antt =====
-- The insert queries of rust/processor/src/processors/coin_processor.rs.
use aptos_indexer_processors.Prelude.{some, none, List, [], ◌∷◌, bytes}
use aptos_indexer_processors.Queries.Upsert.{Upsert, do_nothing, do_update}
use aptos_indexer_processors.Queries.Tables1.{
  coin_activities_table, coin_balances_table, coin_infos_table, coin_supply_table,
}
use aptos_indexer_processors.Queries.Tables2.{current_coin_balances_table}

abbrev pub insert_coin_activities_query : Upsert
insert_coin_activities_query = record {
  table = coin_activities_table;
  on_conflict =
      bytes "transaction_version"
      ∷ bytes "event_account_address"
      ∷ bytes "event_creation_number"
      ∷ bytes "event_sequence_number"
      ∷ [];
  action = do_update (bytes "entry_function_id_str" ∷ bytes "inserted_at" ∷ []);
  clause = none;
}

abbrev pub insert_coin_infos_query : Upsert
insert_coin_infos_query = record {
  table = coin_infos_table;
  on_conflict = bytes "coin_type_hash" ∷ [];
  action = do_update (
      bytes "transaction_version_created"
      ∷ bytes "creator_address"
      ∷ bytes "name"
      ∷ bytes "symbol"
      ∷ bytes "decimals"
      ∷ bytes "transaction_created_timestamp"
      ∷ bytes "supply_aggregator_table_handle"
      ∷ bytes "supply_aggregator_table_key"
      ∷ bytes "inserted_at"
      ∷ []);
  clause = some (
      bytes
        " WHERE coin_infos.transaction_version_created >= EXCLUDED.transaction_version_created ");
}

abbrev pub insert_coin_balances_query : Upsert
insert_coin_balances_query = record {
  table = coin_balances_table;
  on_conflict = bytes "transaction_version" ∷ bytes "owner_address" ∷ bytes "coin_type_hash" ∷ [];
  action = do_nothing;
  clause = none;
}

abbrev pub insert_current_coin_balances_query : Upsert
insert_current_coin_balances_query = record {
  table = current_coin_balances_table;
  on_conflict = bytes "owner_address" ∷ bytes "coin_type_hash" ∷ [];
  action = do_update (
      bytes "amount"
      ∷ bytes "last_transaction_version"
      ∷ bytes "last_transaction_timestamp"
      ∷ bytes "inserted_at"
      ∷ []);
  clause = some (
      bytes
        " WHERE current_coin_balances.last_transaction_version <= excluded.last_transaction_version ");
}

abbrev pub insert_coin_supply_query : Upsert
insert_coin_supply_query = record {
  table = coin_supply_table;
  on_conflict = bytes "transaction_version" ∷ bytes "coin_type_hash" ∷ [];
  action = do_nothing;
  clause = none;
}

abbrev pub coins_upserts : List Upsert
coins_upserts =
    insert_coin_activities_query ∷ insert_coin_infos_query ∷ insert_coin_balances_query
    ∷ insert_current_coin_balances_query ∷ insert_coin_supply_query ∷ []
