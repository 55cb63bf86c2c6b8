-- ===== src/Queries/Objects.antt =====
-- The insert queries of rust/processor/src/processors/objects_processor.rs.
use aptos_indexer_processors.Prelude.{some, none, List, [], ◌∷◌, bytes}
use aptos_indexer_processors.Queries.Upsert.{Upsert, do_update}
use aptos_indexer_processors.Queries.Tables3.{current_objects_table}
use aptos_indexer_processors.Queries.Tables5.{objects_table}

abbrev pub insert_objects_query : Upsert
insert_objects_query = record {
  table = objects_table;
  on_conflict = bytes "transaction_version" ∷ bytes "write_set_change_index" ∷ [];
  action = do_update (bytes "inserted_at" ∷ []);
  clause = none;
}

abbrev pub insert_current_objects_query : Upsert
insert_current_objects_query = record {
  table = current_objects_table;
  on_conflict = bytes "object_address" ∷ [];
  action = do_update (
      bytes "owner_address"
      ∷ bytes "state_key_hash"
      ∷ bytes "allow_ungated_transfer"
      ∷ bytes "last_guid_creation_num"
      ∷ bytes "last_transaction_version"
      ∷ bytes "is_deleted"
      ∷ bytes "inserted_at"
      ∷ []);
  clause = some (
      bytes
        " WHERE current_objects.last_transaction_version <= excluded.last_transaction_version ");
}

abbrev pub objects_upserts : List Upsert
objects_upserts = insert_objects_query ∷ insert_current_objects_query ∷ []
