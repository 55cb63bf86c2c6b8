-- ===== src/Coin/Insert.antt =====
-- `insert_to_db` and `process_transactions` of rust/processor/src/processors/coin_processor.rs. The text of a
-- query, the database's answers (to each attempt of each chunk of a table) and the removal of null bytes
-- from a row are parameters.
use aptos_indexer_processors.Prelude.{
  ℕ, Bool, ◌&&◌, if◌then◌else◌, Option, none, some, Outcome, done, panic, ◌>>=◌, unwrap, List, Text,
}
use aptos_indexer_processors.Prelude.Dict.{Dict}
use aptos_indexer_processors.Protos.{Transaction}
use aptos_indexer_processors.GapDetector.{ProcessingResult}
use aptos_indexer_processors.GrpcStream.Response.{last}
use aptos_indexer_processors.Database.{get_config_table_chunk_size, execute_in_chunks}
use aptos_indexer_processors.Queries.Upsert.{Upsert}
use aptos_indexer_processors.Queries.Coins.{
  insert_coin_activities_query, insert_coin_infos_query, insert_coin_balances_query,
  insert_current_coin_balances_query, insert_coin_supply_query,
}
use aptos_indexer_processors.Coin.Resources.{Libraries}
use aptos_indexer_processors.Coin.Batch.{CoinRows, batch_rows}

module _ {Query : Type 0} (debug_query : Query → Text)
    (answers : Text → ℕ → ℕ → Query → Option Text → Bool)
    (query_of : (T : Type 0) → Upsert → List T → Query) (clean : (T : Type 0) → T → Outcome T)
    (per_table_chunk_sizes : Dict Text ℕ) where
  -- `execute_in_chunks` for rows of `field_count` fields, in chunks of the table's size.
  unfoldable pub insert_rows : {T : Type 0} → Upsert → ℕ → List T → Outcome Bool
  insert_rows {T} u field_count rows = do
    chunk_size ← get_config_table_chunk_size field_count u.table.name per_table_chunk_sizes
    execute_in_chunks debug_query (clean T) (λ items. (query_of T u items, u.clause))
        (answers u.table.name) rows chunk_size

  -- All five insertions run; whether all succeed.
  unfoldable pub insert_to_db : {D N : Type 0} → CoinRows D N → Outcome Bool
  unfolding insert_rows
  insert_to_db rows = do
    ca ← insert_rows insert_coin_activities_query 16 rows.coin_activities
    ci ← insert_rows insert_coin_infos_query 10 rows.coin_infos
    cb ← insert_rows insert_coin_balances_query 6 rows.coin_balances
    ccb ← insert_rows insert_current_coin_balances_query 6 rows.current_coin_balances
    cs ← insert_rows insert_coin_supply_query 6 rows.coin_supply
    done (ca && (ci && (cb && (ccb && cs))))

  module _ {Json D N : Type 0} (lib : Libraries Json D N) where
    -- A panic while the rows are made is an error of the task that makes them; the inner option is none for
    -- an error.
    unfoldable pub process_transactions :
        List Transaction → ℕ → ℕ → Outcome (Option ProcessingResult)
    unfolding batch_rows insert_to_db
    process_transactions transactions start_version end_version = do
      last_transaction ← unwrap (last transactions)
      elim (batch_rows lib transactions) [
        | panic ↦ done none
        | done rows ↦ do
          inserted ← insert_to_db rows
          done (
              if inserted
              then some (record {
                start_version = start_version;
                end_version = end_version;
                last_transaction_timestamp = last_transaction.timestamp;
              })
              else none)
      ]
