-- ===== src/Queries/Tests.antt =====
-- A concrete database for the theorems of Queries/Replay and Queries/Guarded.
use aptos_indexer_processors.Prelude.{
  ℕ, ◌<◌, ◌≡◌, ◌∷◌, refl, inl, inr, Option, none, some, [], true, false, Bool-cases, ◌==◌, text_eq,
  if◌then◌else◌, Text, bytes, arith,
}
use aptos_indexer_processors.Prelude.Int.{ℤ, pos, ◌≤ℤ◌, leb_ℤ}
use aptos_indexer_processors.Queries.Upsert.{Upsert, member, updated, guard_column, first_column}
use aptos_indexer_processors.Queries.Objects.{insert_current_objects_query}
use aptos_indexer_processors.Queries.Newest.{
  Row, Postgres, insert_all, Older, IsNewest, Insertion, KeepsClause,
}
use aptos_indexer_processors.Database.{to_lowercase, contains, starts_with}
use aptos_indexer_processors.Queries.Replay.{replay-IsNewest}

abbrev written : Upsert → Row ℤ → Row ℤ → Row ℤ
written u old new column = if member column (updated u.action) then new column else old column

-- The row after an insertion, by the column of the clause and its direction.
abbrev merged : Upsert → Option Text → Option Text → Row ℤ → Row ℤ → Row ℤ
merged u (some c) f old new = if leb_ℤ (old c) (new c) then written u old new else old
merged u none (some c) old new = if leb_ℤ (new c) (old c) then written u old new else old
merged u none none old new = written u old new

-- The query with another clause.
abbrev with_clause : Upsert → Option Text → Upsert
with_clause u clause = record {
  table = u.table;
  on_conflict = u.on_conflict;
  action = u.action;
  clause = clause;
}

abbrev stored_after : Upsert → Option Text → Option (Row ℤ) → Row ℤ → Row ℤ
stored_after u clause none new = new
stored_after u clause (some old) new =
    let v = with_clause u clause in merged u (guard_column v) (first_column v) old new

without_clause :
    (u : Upsert)
    → (guard_column (with_clause u none) ≡ none) × (first_column (with_clause u none) ≡ none)
unfolding guard_column first_column
without_clause u = (refl, refl)

leb_iff_le : (a b : ℤ) → ((a ≤ℤ b) → leb_ℤ a b ≡ true) × ((¬ (a ≤ℤ b)) → leb_ℤ a b ≡ false)
leb_iff_le a b = (
  λ h. ground (arith, h),
  λ h. elim (Bool-cases (leb_ℤ a b)) [ inl t ↦ elim (h (ground (arith, t))) [ ] | inr f ↦ f ],
)

abbrev integers : Postgres ℤ
integers = record {
  version_of = λ z. z;
  upsert = stored_after;
  inserted = λ u clause new. refl;
  kept = λ u old new c guard less. rw (guard, (leb_iff_le (old c) (new c)).1 less) refl;
  taken = λ u old new c guard le column. rw (guard, (leb_iff_le (old c) (new c)).0 le) refl;
  kept_first =
      λ u old new c other first less. rw (other, first, (leb_iff_le (new c) (old c)).1 less) refl;
  taken_first = λ u old new c other first le column.
      rw (other, first, (leb_iff_le (new c) (old c)).0 le) refl;
  unguarded = λ u old new column. rw ((without_clause u).0, (without_clause u).1) refl;
}

-- Object 7, whose other columns are all the number of the version.
abbrev object : ℕ → Row ℤ
object v column = if column == bytes "object_address" then pos 7 else pos v

same_object :
    (v w : ℕ) (c : Text)
    → member c insert_current_objects_query.table.primary_key ≡ true
    → object v c ≡ object w c
unfolding member
same_object v w c in_key = elim (Bool-cases (c == bytes "object_address")) [
  | inl same ↦ rw (object, same) refl
  | inr differ ↦ ground (arith, in_key, differ)
]

older : (v : ℕ) → v < 9 → Older integers insert_current_objects_query (object 9) (object v)
older v less = (λ c in_key. same_object v 9 c in_key, λ le. omega (arith, le, less))

abbrev insertion : ℕ → Insertion ℤ
insertion v = record { original_query = bytes "INSERT INTO current_objects"; row = object v }

insertion-KeepsClause : KeepsClause (bytes "INSERT INTO current_objects")
unfolding to_lowercase contains starts_with
insertion-KeepsClause = refl

-- Versions 4, 9 and 5 arrive in this order; the object of version 9 stays.
replay-IsNewest_example :
    (row : Row ℤ) × (insert_all integers insert_current_objects_query none
        (insertion 4 ∷ insertion 9 ∷ insertion 5 ∷ [])
      ≡ some row)
    × IsNewest integers insert_current_objects_query (object 9) row
replay-IsNewest_example =
    replay-IsNewest integers insert_current_objects_query
      (inr (inr (inr (inr (inr (inr (inr (inl refl)))))))) (insertion 9) (insertion 4 ∷ [])
      (insertion 5 ∷ []) insertion-KeepsClause ((older 4 (omega arith), insertion-KeepsClause), tt)
      ((older 5 (omega arith), insertion-KeepsClause), tt)

-- Infos of coin 7, whose other columns are all the number of the version.
abbrev coin_info : ℕ → Insertion ℤ
coin_info v = record {
  original_query = bytes "INSERT INTO coin_infos";
  row = λ column. if column == bytes "coin_type_hash" then pos 7 else pos v;
}

abbrev coin_infos_clause : Text
coin_infos_clause =
    bytes " WHERE coin_infos.transaction_version_created >= EXCLUDED.transaction_version_created "
