-- ===== src/Queries/Metadata.antt =====
-- The insert queries of rust/processor/src/processors/transaction_metadata_processor.rs.
use aptos_indexer_processors.Prelude.{none, List, [], ◌∷◌, bytes}
use aptos_indexer_processors.Queries.Upsert.{Upsert, do_nothing}
use aptos_indexer_processors.Queries.Tables4.{event_size_info_table}
use aptos_indexer_processors.Queries.Tables6.{
  transaction_size_info_table, write_set_size_info_table,
}

abbrev pub insert_transaction_sizes_query : Upsert
insert_transaction_sizes_query = record {
  table = transaction_size_info_table;
  on_conflict = bytes "transaction_version" ∷ [];
  action = do_nothing;
  clause = none;
}

abbrev pub insert_event_sizes_query : Upsert
insert_event_sizes_query = record {
  table = event_size_info_table;
  on_conflict = bytes "transaction_version" ∷ bytes "index" ∷ [];
  action = do_nothing;
  clause = none;
}

abbrev pub insert_write_set_sizes_query : Upsert
insert_write_set_sizes_query = record {
  table = write_set_size_info_table;
  on_conflict = bytes "transaction_version" ∷ bytes "index" ∷ [];
  action = do_nothing;
  clause = none;
}

abbrev pub metadata_upserts : List Upsert
metadata_upserts =
    insert_transaction_sizes_query ∷ insert_event_sizes_query ∷ insert_write_set_sizes_query ∷ []
