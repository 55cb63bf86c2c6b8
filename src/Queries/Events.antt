-- ===== src/Queries/Events.antt =====
-- The insert queries of rust/processor/src/processors/events_processor.rs.
use aptos_indexer_processors.Prelude.{none, List, [], ◌∷◌, bytes}
use aptos_indexer_processors.Queries.Upsert.{Upsert, do_update}
use aptos_indexer_processors.Queries.Tables4.{events_table}

abbrev pub insert_events_query : Upsert
insert_events_query = record {
  table = events_table;
  on_conflict = bytes "transaction_version" ∷ bytes "event_index" ∷ [];
  action = do_update (bytes "inserted_at" ∷ bytes "indexed_type" ∷ []);
  clause = none;
}

abbrev pub events_upserts : List Upsert
events_upserts = insert_events_query ∷ []
