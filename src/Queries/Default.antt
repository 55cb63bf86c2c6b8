-- ===== src/Queries/Default.antt =====
-- The insert queries of rust/processor/src/processors/default_processor.rs.
use aptos_indexer_processors.Prelude.{some, none, List, [], ◌∷◌, bytes}
use aptos_indexer_processors.Queries.Upsert.{Upsert, do_nothing, do_update}
use aptos_indexer_processors.Queries.Tables1.{block_metadata_transactions_table}
use aptos_indexer_processors.Queries.Tables3.{current_table_items_table}
use aptos_indexer_processors.Queries.Tables4.{move_modules_table, move_resources_table}
use aptos_indexer_processors.Queries.Tables5.{table_items_table, table_metadatas_table}
use aptos_indexer_processors.Queries.Tables6.{transactions_table, write_set_changes_table}

abbrev pub insert_transactions_query : Upsert
insert_transactions_query = record {
  table = transactions_table;
  on_conflict = bytes "version" ∷ [];
  action = do_update (bytes "inserted_at" ∷ bytes "payload_type" ∷ []);
  clause = none;
}

abbrev pub insert_block_metadata_transactions_query : Upsert
insert_block_metadata_transactions_query = record {
  table = block_metadata_transactions_table;
  on_conflict = bytes "version" ∷ [];
  action = do_nothing;
  clause = none;
}

abbrev pub insert_write_set_changes_query : Upsert
insert_write_set_changes_query = record {
  table = write_set_changes_table;
  on_conflict = bytes "transaction_version" ∷ bytes "index" ∷ [];
  action = do_nothing;
  clause = none;
}

abbrev pub insert_move_modules_query : Upsert
insert_move_modules_query = record {
  table = move_modules_table;
  on_conflict = bytes "transaction_version" ∷ bytes "write_set_change_index" ∷ [];
  action = do_nothing;
  clause = none;
}

abbrev pub insert_move_resources_query : Upsert
insert_move_resources_query = record {
  table = move_resources_table;
  on_conflict = bytes "transaction_version" ∷ bytes "write_set_change_index" ∷ [];
  action = do_nothing;
  clause = none;
}

abbrev pub insert_table_items_query : Upsert
insert_table_items_query = record {
  table = table_items_table;
  on_conflict = bytes "transaction_version" ∷ bytes "write_set_change_index" ∷ [];
  action = do_nothing;
  clause = none;
}

abbrev pub insert_current_table_items_query : Upsert
insert_current_table_items_query = record {
  table = current_table_items_table;
  on_conflict = bytes "table_handle" ∷ bytes "key_hash" ∷ [];
  action = do_update (
      bytes "key"
      ∷ bytes "decoded_key"
      ∷ bytes "decoded_value"
      ∷ bytes "is_deleted"
      ∷ bytes "last_transaction_version"
      ∷ bytes "inserted_at"
      ∷ []);
  clause = some (
      bytes
        " WHERE current_table_items.last_transaction_version <= excluded.last_transaction_version ");
}

abbrev pub insert_table_metadata_query : Upsert
insert_table_metadata_query = record {
  table = table_metadatas_table;
  on_conflict = bytes "handle" ∷ [];
  action = do_nothing;
  clause = none;
}

abbrev pub default_upserts : List Upsert
default_upserts =
    insert_transactions_query ∷ insert_block_metadata_transactions_query
    ∷ insert_write_set_changes_query ∷ insert_move_modules_query ∷ insert_move_resources_query
    ∷ insert_table_items_query ∷ insert_current_table_items_query ∷ insert_table_metadata_query ∷ []
