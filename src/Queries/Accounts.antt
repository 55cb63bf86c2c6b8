-- ===== src/Queries/Accounts.antt =====
-- The insert queries of rust/processor/src/processors/account_transactions_processor.rs.
use aptos_indexer_processors.Prelude.{none, List, [], ◌∷◌, bytes}
use aptos_indexer_processors.Queries.Upsert.{Upsert, do_nothing}
use aptos_indexer_processors.Queries.Tables1.{account_transactions_table}

abbrev pub insert_account_transactions_query : Upsert
insert_account_transactions_query = record {
  table = account_transactions_table;
  on_conflict = bytes "transaction_version" ∷ bytes "account_address" ∷ [];
  action = do_nothing;
  clause = none;
}

abbrev pub accounts_upserts : List Upsert
accounts_upserts = insert_account_transactions_query ∷ []
