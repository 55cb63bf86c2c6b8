-- ===== src/Database.antt =====
-- rust/processor/src/utils/database.rs: which queries go to the database. A query is what `build_query`
-- makes of rows; `debug_query` (of `diesel`: the SQL followed by the bound values), the removal of null
-- bytes from a row, which can panic, and the database are parameters: `answers k n` is how the database
-- answers the attempt `n` of the task for the chunk `k`, at whatever state it then has. A failed connection
-- is an answer too. The errors themselves are only logged and passed on.
pub mod Where
pub mod Limits
pub mod Retry
mod Tests
use aptos_indexer_processors.Prelude.{
  ℕ, ◌+◌, ◌/◌, Option, none, some, Outcome, done, panic, List, [], ◌∷◌, ◌>>=◌, Bool, true, false,
  ◌&&◌, ◌||◌, leb, if◌then◌else◌, ◌==◌, nat_eq, text_eq, Text, bytes,
}
use aptos_indexer_processors.Prelude.Dict.{Dict, lookup}
use aptos_indexer_processors.Prelude.Chunks.{chunks}

-- `str::to_lowercase` on ASCII letters; no other character becomes one of `where`.
abbrev pub lower : ℕ → ℕ
lower c = if leb 65 c && leb c 90 then c + 32 else c

unfoldable pub to_lowercase : Text → Text
to_lowercase [] = []
to_lowercase (c ∷ s) = lower c ∷ to_lowercase s

unfoldable pub starts_with : Text → Text → Bool
starts_with s [] = true
starts_with [] (d ∷ p) = false
starts_with (c ∷ s) (d ∷ p) = c == d && starts_with s p

-- `str::contains`
unfoldable pub contains : Text → Text → Bool
unfolding starts_with
contains [] p = starts_with [] p
contains (c ∷ s) p = starts_with (c ∷ s) p || contains s p

-- The where clause that is appended to the query: none where the query contains one already.
unfoldable pub effective_clause : Text → Option Text → Option Text
unfolding to_lowercase contains
effective_clause original_query additional_where_clause =
    if contains (to_lowercase original_query) (bytes "where") then none else additional_where_clause

-- The loop over the tasks' results.
unfoldable pub all_ok : List Bool → Bool
all_ok [] = true
all_ok (result ∷ results) = result && all_ok results

abbrev pub max_diesel_param_size : ℕ
max_diesel_param_size = 65535 / 2

-- The size for a table of `field_count` columns; a division by zero panics.
pub get_config_table_chunk_size : ℕ → Text → Dict Text ℕ → Outcome ℕ
unfolding lookup
get_config_table_chunk_size field_count table_name per_table_chunk_sizes =
    elim (lookup table_name per_table_chunk_sizes) [
      | some n ↦ done n
      | none ↦ if field_count == 0 then panic else done (max_diesel_param_size / field_count)
    ]

module _ {T : Type 0} (remove_null_bytes : T → Outcome T) where
  -- The rows without null bytes; a row that does not survive the trip through JSON panics.
  pub clean_rows : List T → Outcome (List T)
  clean_rows [] = done []
  clean_rows (item ∷ items) = do
    cleaned ← remove_null_bytes item
    rest ← clean_rows items
    done (cleaned ∷ rest)

  pub clean_data_for_db : List T → Bool → Outcome (List T)
  unfolding clean_rows
  clean_data_for_db items should_remove_null_bytes =
      if should_remove_null_bytes then clean_rows items else done items

module _ {Query : Type 0} (debug_query : Query → Text) where
  -- Whether the query succeeds, where the database answers this attempt by `answer`.
  pub execute_with_better_error : (Query → Option Text → Bool) → Query → Option Text → Bool
  unfolding effective_clause
  execute_with_better_error answer query additional_where_clause =
      answer query (effective_clause (debug_query query) additional_where_clause)

  module _ {T : Type 0} (remove_null_bytes : T → Outcome T)
      (build_query : List T → Query × Option Text) where
    -- Whether the rows are stored: as they are at the attempt 0, or else cleaned at the attempt 1.
    pub execute_or_retry_cleaned :
        (ℕ → Query → Option Text → Bool) → List T → Query → Option Text → Outcome Bool
    unfolding execute_with_better_error clean_data_for_db
    execute_or_retry_cleaned answers items query additional_where_clause =
        elim (execute_with_better_error (answers 0) query additional_where_clause) [
          | true ↦ done true
          | false ↦ do
            cleaned_items ← clean_data_for_db remove_null_bytes items true
            let cleaned_query = (build_query cleaned_items).0
            let cleaned_clause = (build_query cleaned_items).1
            done (execute_with_better_error (answers 1) cleaned_query cleaned_clause)
        ]

    pub run_task : (ℕ → Query → Option Text → Bool) → List T → Outcome Bool
    unfolding execute_or_retry_cleaned
    run_task answers items =
        let (query, additional_where_clause) = build_query items in
        execute_or_retry_cleaned answers items query additional_where_clause

    -- The results of the tasks from the chunk `k` on; one that panics panics here.
    pub try_join_all :
        (ℕ → ℕ → Query → Option Text → Bool) → ℕ → List (List T) → Outcome (List Bool)
    unfolding run_task
    try_join_all answers k [] = done []
    try_join_all answers k (chunk ∷ chunks) = do
      result ← run_task (answers k) chunk
      results ← try_join_all answers (k + 1) chunks
      done (result ∷ results)

    -- `slice::chunks` panics at the size 0.
    pub execute_in_chunks : (ℕ → ℕ → Query → Option Text → Bool) → List T → ℕ → Outcome Bool
    unfolding try_join_all chunks all_ok
    execute_in_chunks answers items_to_insert chunk_size = if chunk_size == 0 then panic else (do
      results ← try_join_all answers 0 (chunks chunk_size items_to_insert)
      done (all_ok results))
