-- ===== src/Queries/Ans.antt =====
-- The insert queries of rust/processor/src/processors/ans_processor.rs.
use aptos_indexer_processors.Prelude.{some, none, List, [], ◌∷◌, bytes}
use aptos_indexer_processors.Queries.Upsert.{Upsert, do_nothing, do_update}
use aptos_indexer_processors.Queries.Tables1.{
  ans_lookup_table, ans_lookup_v2_table, ans_primary_name_table, ans_primary_name_v2_table,
}
use aptos_indexer_processors.Queries.Tables2.{
  current_ans_lookup_table, current_ans_lookup_v2_table, current_ans_primary_name_table,
  current_ans_primary_name_v2_table,
}

abbrev pub insert_current_ans_lookups_query : Upsert
insert_current_ans_lookups_query = record {
  table = current_ans_lookup_table;
  on_conflict = bytes "domain" ∷ bytes "subdomain" ∷ [];
  action = do_update (
      bytes "registered_address"
      ∷ bytes "expiration_timestamp"
      ∷ bytes "last_transaction_version"
      ∷ bytes "token_name"
      ∷ bytes "is_deleted"
      ∷ bytes "inserted_at"
      ∷ []);
  clause = some (
      bytes
        " WHERE current_ans_lookup.last_transaction_version <= excluded.last_transaction_version ");
}

abbrev pub insert_ans_lookups_query : Upsert
insert_ans_lookups_query = record {
  table = ans_lookup_table;
  on_conflict = bytes "transaction_version" ∷ bytes "write_set_change_index" ∷ [];
  action = do_nothing;
  clause = none;
}

abbrev pub insert_current_ans_primary_names_query : Upsert
insert_current_ans_primary_names_query = record {
  table = current_ans_primary_name_table;
  on_conflict = bytes "registered_address" ∷ [];
  action = do_update (
      bytes "domain"
      ∷ bytes "subdomain"
      ∷ bytes "token_name"
      ∷ bytes "is_deleted"
      ∷ bytes "last_transaction_version"
      ∷ bytes "inserted_at"
      ∷ []);
  clause = some (
      bytes
        " WHERE current_ans_primary_name.last_transaction_version <= excluded.last_transaction_version ");
}

abbrev pub insert_ans_primary_names_query : Upsert
insert_ans_primary_names_query = record {
  table = ans_primary_name_table;
  on_conflict = bytes "transaction_version" ∷ bytes "write_set_change_index" ∷ [];
  action = do_nothing;
  clause = none;
}

abbrev pub insert_current_ans_lookups_v2_query : Upsert
insert_current_ans_lookups_v2_query = record {
  table = current_ans_lookup_v2_table;
  on_conflict = bytes "domain" ∷ bytes "subdomain" ∷ bytes "token_standard" ∷ [];
  action = do_update (
      bytes "registered_address"
      ∷ bytes "expiration_timestamp"
      ∷ bytes "last_transaction_version"
      ∷ bytes "token_name"
      ∷ bytes "is_deleted"
      ∷ bytes "inserted_at"
      ∷ bytes "subdomain_expiration_policy"
      ∷ []);
  clause = some (
      bytes
        " WHERE current_ans_lookup_v2.last_transaction_version <= excluded.last_transaction_version ");
}

abbrev pub insert_ans_lookups_v2_query : Upsert
insert_ans_lookups_v2_query = record {
  table = ans_lookup_v2_table;
  on_conflict = bytes "transaction_version" ∷ bytes "write_set_change_index" ∷ [];
  action = do_update (bytes "inserted_at" ∷ bytes "subdomain_expiration_policy" ∷ []);
  clause = none;
}

abbrev pub insert_current_ans_primary_names_v2_query : Upsert
insert_current_ans_primary_names_v2_query = record {
  table = current_ans_primary_name_v2_table;
  on_conflict = bytes "registered_address" ∷ bytes "token_standard" ∷ [];
  action = do_update (
      bytes "domain"
      ∷ bytes "subdomain"
      ∷ bytes "token_name"
      ∷ bytes "is_deleted"
      ∷ bytes "last_transaction_version"
      ∷ bytes "inserted_at"
      ∷ []);
  clause = some (
      bytes
        " WHERE current_ans_primary_name_v2.last_transaction_version <= excluded.last_transaction_version ");
}

abbrev pub insert_ans_primary_names_v2_query : Upsert
insert_ans_primary_names_v2_query = record {
  table = ans_primary_name_v2_table;
  on_conflict = bytes "transaction_version" ∷ bytes "write_set_change_index" ∷ [];
  action = do_nothing;
  clause = none;
}

abbrev pub ans_upserts : List Upsert
ans_upserts =
    insert_current_ans_lookups_query ∷ insert_ans_lookups_query
    ∷ insert_current_ans_primary_names_query ∷ insert_ans_primary_names_query
    ∷ insert_current_ans_lookups_v2_query ∷ insert_ans_lookups_v2_query
    ∷ insert_current_ans_primary_names_v2_query ∷ insert_ans_primary_names_v2_query ∷ []
