-- ===== src/Queries/Stake.antt =====
-- The insert queries of rust/processor/src/processors/stake_processor.rs.
use aptos_indexer_processors.Prelude.{some, none, List, [], ◌∷◌, bytes}
use aptos_indexer_processors.Queries.Upsert.{Upsert, do_nothing, do_update}
use aptos_indexer_processors.Queries.Tables2.{
  current_delegated_staking_pool_balances_table, current_delegated_voter_table,
  current_delegator_balances_table,
}
use aptos_indexer_processors.Queries.Tables3.{current_staking_pool_voter_table}
use aptos_indexer_processors.Queries.Tables4.{
  delegated_staking_activities_table, delegated_staking_pool_balances_table,
  delegated_staking_pools_table, delegator_balances_table,
}
use aptos_indexer_processors.Queries.Tables5.{proposal_votes_table}

abbrev pub insert_current_stake_pool_voter_query : Upsert
insert_current_stake_pool_voter_query = record {
  table = current_staking_pool_voter_table;
  on_conflict = bytes "staking_pool_address" ∷ [];
  action = do_update (
      bytes "staking_pool_address"
      ∷ bytes "voter_address"
      ∷ bytes "last_transaction_version"
      ∷ bytes "inserted_at"
      ∷ bytes "operator_address"
      ∷ []);
  clause = some (
      bytes
        " WHERE current_staking_pool_voter.last_transaction_version <= EXCLUDED.last_transaction_version ");
}

abbrev pub insert_proposal_votes_query : Upsert
insert_proposal_votes_query = record {
  table = proposal_votes_table;
  on_conflict = bytes "transaction_version" ∷ bytes "proposal_id" ∷ bytes "voter_address" ∷ [];
  action = do_nothing;
  clause = none;
}

abbrev pub insert_delegator_activities_query : Upsert
insert_delegator_activities_query = record {
  table = delegated_staking_activities_table;
  on_conflict = bytes "transaction_version" ∷ bytes "event_index" ∷ [];
  action = do_nothing;
  clause = none;
}

abbrev pub insert_delegator_balances_query : Upsert
insert_delegator_balances_query = record {
  table = delegator_balances_table;
  on_conflict = bytes "transaction_version" ∷ bytes "write_set_change_index" ∷ [];
  action = do_nothing;
  clause = none;
}

abbrev pub insert_current_delegator_balances_query : Upsert
insert_current_delegator_balances_query = record {
  table = current_delegator_balances_table;
  on_conflict =
      bytes "delegator_address"
      ∷ bytes "pool_address"
      ∷ bytes "pool_type"
      ∷ bytes "table_handle"
      ∷ [];
  action = do_update (
      bytes "last_transaction_version"
      ∷ bytes "inserted_at"
      ∷ bytes "shares"
      ∷ bytes "parent_table_handle"
      ∷ []);
  clause = some (
      bytes
        " WHERE current_delegator_balances.last_transaction_version <= EXCLUDED.last_transaction_version ");
}

abbrev pub insert_delegator_pools_query : Upsert
insert_delegator_pools_query = record {
  table = delegated_staking_pools_table;
  on_conflict = bytes "staking_pool_address" ∷ [];
  action = do_update (bytes "first_transaction_version" ∷ bytes "inserted_at" ∷ []);
  clause = some (
      bytes
        " WHERE delegated_staking_pools.first_transaction_version >= EXCLUDED.first_transaction_version ");
}

abbrev pub insert_delegator_pool_balances_query : Upsert
insert_delegator_pool_balances_query = record {
  table = delegated_staking_pool_balances_table;
  on_conflict = bytes "transaction_version" ∷ bytes "staking_pool_address" ∷ [];
  action = do_nothing;
  clause = none;
}

abbrev pub insert_current_delegator_pool_balances_query : Upsert
insert_current_delegator_pool_balances_query = record {
  table = current_delegated_staking_pool_balances_table;
  on_conflict = bytes "staking_pool_address" ∷ [];
  action = do_update (
      bytes "total_coins"
      ∷ bytes "total_shares"
      ∷ bytes "last_transaction_version"
      ∷ bytes "inserted_at"
      ∷ bytes "operator_commission_percentage"
      ∷ bytes "inactive_table_handle"
      ∷ bytes "active_table_handle"
      ∷ []);
  clause = some (
      bytes
        " WHERE current_delegated_staking_pool_balances.last_transaction_version <= EXCLUDED.last_transaction_version ");
}

abbrev pub insert_current_delegated_voter_query : Upsert
insert_current_delegated_voter_query = record {
  table = current_delegated_voter_table;
  on_conflict = bytes "delegation_pool_address" ∷ bytes "delegator_address" ∷ [];
  action = do_update (
      bytes "voter"
      ∷ bytes "pending_voter"
      ∷ bytes "last_transaction_timestamp"
      ∷ bytes "last_transaction_version"
      ∷ bytes "table_handle"
      ∷ bytes "inserted_at"
      ∷ []);
  clause = some (
      bytes
        " WHERE current_delegated_voter.last_transaction_version <= EXCLUDED.last_transaction_version ");
}

abbrev pub stake_upserts : List Upsert
stake_upserts =
    insert_current_stake_pool_voter_query ∷ insert_proposal_votes_query
    ∷ insert_delegator_activities_query ∷ insert_delegator_balances_query
    ∷ insert_current_delegator_balances_query ∷ insert_delegator_pools_query
    ∷ insert_delegator_pool_balances_query ∷ insert_current_delegator_pool_balances_query
    ∷ insert_current_delegated_voter_query ∷ []
