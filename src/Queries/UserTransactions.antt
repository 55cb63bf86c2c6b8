-- ===== src/Queries/UserTransactions.antt =====
-- The insert queries of rust/processor/src/processors/user_transaction_processor.rs.
use aptos_indexer_processors.Prelude.{none, List, [], ◌∷◌, bytes}
use aptos_indexer_processors.Queries.Upsert.{Upsert, do_nothing, do_update}
use aptos_indexer_processors.Queries.Tables5.{signatures_table}
use aptos_indexer_processors.Queries.Tables6.{user_transactions_table}

abbrev pub insert_user_transactions_query : Upsert
insert_user_transactions_query = record {
  table = user_transactions_table;
  on_conflict = bytes "version" ∷ [];
  action = do_update (bytes "expiration_timestamp_secs" ∷ bytes "inserted_at" ∷ []);
  clause = none;
}

abbrev pub insert_signatures_query : Upsert
insert_signatures_query = record {
  table = signatures_table;
  on_conflict =
      bytes "transaction_version"
      ∷ bytes "multi_agent_index"
      ∷ bytes "multi_sig_index"
      ∷ bytes "is_sender_primary"
      ∷ [];
  action = do_nothing;
  clause = none;
}

abbrev pub user_transactions_upserts : List Upsert
user_transactions_upserts = insert_user_transactions_query ∷ insert_signatures_query ∷ []
