-- ===== src/Database/Tests.antt =====
-- The database helpers on a few rows, and their theorems there.
use aptos_indexer_processors.Prelude.{
  ℕ, ◌≤◌, ◌≡◌, ◌↔◌, refl, Option, none, some, done, List, [], ◌∷◌, ◌++◌, arith, concat, All, Bool,
  true, false, ltb, Text, bytes, Outcome, panic, inl, inr, ap, ◌∙◌, sym, Has, ◌==◌, nat_eq, ◌&&◌,
  if◌then◌else◌,
}
use mathlib.Core.List.{append_assoc}
use aptos_indexer_processors.Prelude.Dict.{lookup}
use aptos_indexer_processors.Prelude.Chunks.{chunks}
use aptos_indexer_processors.Database.{
  to_lowercase, starts_with, contains, effective_clause, get_config_table_chunk_size,
  execute_in_chunks, all_ok, try_join_all, clean_rows, run_task, execute_or_retry_cleaned,
  clean_data_for_db, execute_with_better_error,
}
use aptos_indexer_processors.Database.Where.{letters, clause_dropped_by_data}
use aptos_indexer_processors.Database.Limits.{Fits, default_chunks_fit}
use aptos_indexer_processors.Database.Retry.{
  EachFrom, SomeFrom, StoredOrCleaned, CannotBeCleaned, execute_in_chunks_iff,
}

abbrev guard : Option Text
guard = some (bytes " WHERE a <= b ")

clause_kept_and_dropped :
    (effective_clause (bytes "INSERT INTO t VALUES ($1) -- binds: [7]") guard ≡ guard)
    × (effective_clause (bytes "SELECT 1 FROM t WHERE 1=0") guard ≡ none)
unfolding effective_clause contains starts_with to_lowercase
clause_kept_and_dropped = (refl, refl)

-- A row is a text; a query is its rows, and its text has them one after the other.
abbrev printed : List Text → Text
printed [] = []
printed (row ∷ rows) = row ++ printed rows

printed_values :
    (rows : List Text) (row value before word after : Text)
    → Has row rows
    → Has value (row ∷ [])
    → value ≡ before ++ (word ++ after)
    → letters word ≡ true
    → (sql : Text) × (rest : Text) × (printed rows ≡ sql ++ (word ++ rest))
printed_values [] row value before word after among holds is in_word = elim among [ ]
printed_values (x ∷ rows) row value before word after (inl same) (inr none_) is in_word =
    elim none_ [ ]
printed_values (x ∷ rows) row value before word after (inl same) (inl it) is in_word = (
  before,
  after ++ printed rows,
  ap (λ t. t ++ printed rows) (sym same ∙ sym it ∙ is)
      ∙ append_assoc before (word ++ after) (printed rows)
      ∙ ap (λ t. before ++ t) (append_assoc word after (printed rows)),
)
printed_values (x ∷ rows) row value before word after (inr among) holds is in_word =
    let (sql, rest, e) = printed_values rows row value before word after among holds is in_word in
    (x ++ sql, rest, ap (λ t. x ++ t) e ∙ sym (append_assoc x sql (word ++ rest)))

abbrev guarded : List Text → List Text × Option Text
guarded rows = (rows, guard)

-- A database that answers only queries with a clause.
abbrev only_guarded : List Text → Option Text → Bool
only_guarded rows none = false
only_guarded rows (some clause) = true

abbrev two_names : List Text
two_names = bytes "Aptos" ∷ bytes "Nowhere #1" ∷ []

where_itself : to_lowercase (bytes "where") ≡ bytes "where"
unfolding to_lowercase
where_itself = refl

clause_dropped_by_data_example :
    execute_with_better_error printed only_guarded two_names guard ≡ only_guarded two_names none
clause_dropped_by_data_example =
    clause_dropped_by_data printed guarded (λ row. row ∷ []) printed_values two_names
      (bytes "Nowhere #1") (bytes "Nowhere #1") (bytes "No") (bytes "where") (bytes " #1")
      (inr (inl refl)) (inl refl) refl where_itself only_guarded

abbrev three_rows : List ℕ
three_rows = 1 ∷ 2 ∷ 3 ∷ []

default_chunks_fit_example :
    (n : ℕ) × (get_config_table_chunk_size 15000 (bytes "events") [] ≡ done n)
    × (1 ≤ n)
    × (concat (chunks n three_rows) ≡ three_rows)
    × All (Fits 15000) (chunks n three_rows)
unfolding lookup
default_chunks_fit_example =
    default_chunks_fit 15000 (bytes "events") [] three_rows (omega arith) (omega arith) refl

-- Rows are numbers and a query is its rows. The first attempt for the second chunk fails, whatever its
-- rows; all other attempts succeed.
abbrev answers : ℕ → ℕ → List ℕ → Option Text → Bool
answers k n rows clause = elim (k == 1 && n == 0) [ true ↦ false | false ↦ true ]

abbrev build : List ℕ → List ℕ × Option Text
build rows = (rows, none)

-- Only rows below 10 can be cleaned, and they stay as they are.
abbrev clean : ℕ → Outcome ℕ
clean n = if ltb n 10 then done n else panic

-- The second attempt, with the same rows, succeeds; a row that cannot be cleaned panics instead.
retried_in_chunks :
    (execute_in_chunks (λ q. []) clean build answers (3 ∷ 4 ∷ 9 ∷ []) 2 ≡ done true)
    × (execute_in_chunks (λ q. []) clean build answers (3 ∷ 4 ∷ 19 ∷ []) 2 ≡ panic)
unfolding execute_in_chunks try_join_all all_ok run_task execute_or_retry_cleaned clean_data_for_db
    clean_rows execute_with_better_error effective_clause contains starts_with to_lowercase chunks
retried_in_chunks = (refl, refl)

execute_in_chunks_iff_example :
    ((execute_in_chunks (λ q. []) clean build answers (3 ∷ 4 ∷ 9 ∷ []) 2 ≡ done true)
      ↔ EachFrom (StoredOrCleaned (λ q. []) answers clean build) 0 (chunks 2 (3 ∷ 4 ∷ 9 ∷ [])))
    × ((execute_in_chunks (λ q. []) clean build answers (3 ∷ 4 ∷ 9 ∷ []) 2 ≡ panic)
        ↔ SomeFrom (CannotBeCleaned (λ q. []) answers clean build) 0 (chunks 2 (3 ∷ 4 ∷ 9 ∷ [])))
execute_in_chunks_iff_example =
    execute_in_chunks_iff (λ q. []) answers clean build (3 ∷ 4 ∷ 9 ∷ []) 2 (omega arith)
