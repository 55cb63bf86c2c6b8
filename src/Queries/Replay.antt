-- ===== src/Queries/Replay.antt =====
-- Batches that arrive in any order, or twice, leave the newest row in a table of current rows.
use aptos_indexer_processors.Prelude.{
  ◌+◌, ◌≡◌, ◌⊎◌, inl, inr, refl, ap, ◌∙◌, Option, none, some, List, [], ◌∷◌, ◌++◌, true, false,
  Bool-cases, text_eq, Text, All, Has, lt_or_le, arith,
}
use aptos_indexer_processors.Prelude.Int.{ℤ, ◌≤ℤ◌, pos_part, neg_part}
use aptos_indexer_processors.Queries.Upsert.{Upsert, member, updated, column_names, guard_column}
use aptos_indexer_processors.Queries.WellTyped.{every-All}
use aptos_indexer_processors.Queries.Newest.{
  newest_wins_upserts, last_transaction_version, complete, newest_wins, newest_wins_all, Row,
  Postgres, member_of_All, complete_cases, newest_wins_parts, insert_all, version, Older, IsNewest,
  Insertion, KeepsClause, InsertsOlder, effective_clause-kept, at_most_same,
}

module _ {V : Type 0} (db : Postgres V) (u : Upsert) (newest : Row V)
    (guard : guard_column u ≡ some last_transaction_version)
    (sets_version : member last_transaction_version (updated u.action) ≡ true)
    (whole : complete (column_names u.table.columns) (updated u.action) u.table.primary_key
      ≡ true) where
  abbrev V_of : Row V → ℤ
  V_of = version db u newest

  OlderIfStored : Option (Row V) → Type 0
  OlderIfStored none = Unit
  OlderIfStored (some row) = Older db u newest row

  compare : (a b : ℤ) → (a ≤ℤ b) ⊎ ¬ (a ≤ℤ b)
  compare a b = elim (lt_or_le (pos_part b + neg_part a) (pos_part a + neg_part b)) [
    | inl more ↦ inr (λ le. omega (arith, more, le))
    | inr le ↦ inl le
  ]

  Newest : Row V → Type 0
  Newest row =
      IsNewest db u newest row × (row last_transaction_version ≡ newest last_transaction_version)

  -- A column of a row that was let in.
  column_taken :
      (old new : Row V)
      → V_of old ≤ℤ V_of new
      → (c : Text)
      → (db.upsert u u.clause (some old) new c ≡ new c)
        ⊎ ((member c (updated u.action) ≡ false) × (db.upsert u u.clause (some old) new c ≡ old c))
  column_taken old new le c = elim (Bool-cases (member c (updated u.action))) [
    | inl sets ↦ inl (db.taken u old new last_transaction_version guard le c ∙ rw sets refl)
    | inr leaves ↦
        inr (leaves, db.taken u old new last_transaction_version guard le c ∙ rw leaves refl)
  ]

  version_taken :
      (old new : Row V)
      → V_of old ≤ℤ V_of new
      → db.upsert u u.clause (some old) new last_transaction_version ≡ new last_transaction_version
  version_taken old new le =
      db.taken u old new last_transaction_version guard le last_transaction_version
      ∙ rw sets_version refl

  upsert-Older :
      (stored : Option (Row V)) (row : Row V)
      → OlderIfStored stored
      → Older db u newest row
      → Older db u newest (db.upsert u u.clause stored row)
  unfolding OlderIfStored
  upsert-Older none row h older = rw (db.inserted u u.clause row) older
  upsert-Older (some old) row h older = elim (compare (V_of old) (V_of row)) [
    | inl le ↦ (
      λ c in_key. elim (column_taken old row le c) [
        | inl new ↦ new ∙ older.0 c in_key
        | inr (_, kept) ↦ kept ∙ h.0 c in_key
      ],
      λ newer. older.1 (
          at_most_same (V_of newest) (V_of (db.upsert u u.clause (some old) row)) (V_of row)
            (ap db.version_of (version_taken old row le)) newer),
    )
    | inr less ↦ rw (db.kept u old row last_transaction_version guard less) h
  ]

  upsert-Newest :
      (stored : Option (Row V)) → OlderIfStored stored → Newest (db.upsert u u.clause stored newest)
  unfolding OlderIfStored Newest
  upsert-Newest none h = rw (db.inserted u u.clause newest) (λ c has. refl, refl)
  upsert-Newest (some old) h =
      let le : V_of old ≤ℤ V_of newest = elim (compare (V_of old) (V_of newest)) [
        | inl le ↦ le
        | inr more ↦ elim (h.1 (total (V_of old) (V_of newest) more)) [ ]
      ] in
      (
        λ c has. elim (column_taken old newest le c) [
          | inl new ↦ new
          | inr (leaves, kept) ↦
              elim (complete_cases (column_names u.table.columns) (updated u.action)
                u.table.primary_key c whole has) [
                  | inl sets ↦ cc (sets, leaves)
                  | inr in_key ↦ kept ∙ h.0 c in_key
                ]
        ],
        version_taken old newest le,
      )
    where
      total : (a b : ℤ) → ¬ (a ≤ℤ b) → b ≤ℤ a
      total a b h = elim (compare b a) [
        | inl le ↦ le
        | inr other ↦ elim (lt_or_le (pos_part b + neg_part a) (pos_part a + neg_part b)) [
          | inl more ↦ omega (arith, more)
          | inr le ↦ elim (h le) [ ]
        ]
      ]

  upsert_after :
      (row old : Row V)
      → Newest row
      → Older db u newest old
      → db.upsert u u.clause (some row) old ≡ row
  unfolding Newest
  upsert_after row old h older =
      db.kept u row old last_transaction_version guard (λ le. older.1 (rw h.1 at le))

  stays_stored :
      (row : Row V) (is : List (Insertion V))
      → Newest row
      → All (InsertsOlder db u newest) is
      → insert_all db u (some row) is ≡ some row
  stays_stored row [] h older = refl
  stays_stored row (i ∷ is) h ((older, keeps), rest) =
      rw (effective_clause-kept i.original_query u.clause keeps, insert_all)
        (rw (upsert_after row i.row h older) (stays_stored row is h rest))

  insert_all-IsNewest :
      (stored : Option (Row V)) (original_query : Text) (earlier later : List (Insertion V))
      → KeepsClause original_query
      → OlderIfStored stored
      → All (InsertsOlder db u newest) earlier
      → All (InsertsOlder db u newest) later
      → (row : Row V) × (insert_all db u stored
            (earlier ++ record { original_query = original_query; row = newest } ∷ later)
          ≡ some row)
        × IsNewest db u newest row
  unfolding OlderIfStored Newest
  insert_all-IsNewest stored original_query [] later keeps h before after =
      let found = upsert-Newest stored h in
      (
        db.upsert u u.clause stored newest,
        rw (effective_clause-kept original_query u.clause keeps, insert_all)
            (stays_stored (db.upsert u u.clause stored newest) later found after),
        found.0,
      )
  insert_all-IsNewest stored original_query (i ∷ earlier) later keeps h ((older, kept), before)
        after =
      rw (effective_clause-kept i.original_query u.clause kept, insert_all)
        (insert_all-IsNewest (some (db.upsert u u.clause stored i.row)) original_query earlier later
          keeps (upsert-Older stored i.row h older) before after)

-- For each of the tables of current rows whose query writes the whole row: when the rows of one key are
-- inserted in any order into the empty table, and one is newer than all the others, the stored row agrees
-- with it in every column, provided that no query's text, bound values included, contains `where` in any
-- spelling (the clause would be dropped). Postgres is assumed to do what it documents of the statement.
pub replay-IsNewest :
    {V : Type 0} (db : Postgres V) (u : Upsert)
    → Has u newest_wins_upserts
    → (newest : Insertion V) (earlier later : List (Insertion V))
    → KeepsClause newest.original_query
    → All (InsertsOlder db u newest.row) earlier
    → All (InsertsOlder db u newest.row) later
    → (row : Row V) × (insert_all db u none (earlier ++ newest ∷ later) ≡ some row)
      × IsNewest db u newest.row row
unfolding OlderIfStored
replay-IsNewest db u has newest earlier later keeps before after =
    let parts = newest_wins_parts u (
      member_of_All u newest_wins_upserts
        (every-All newest_wins newest_wins_upserts newest_wins_all) has) in
    insert_all-IsNewest db u newest.row parts.0 parts.1 parts.2 none newest.original_query earlier
      later keeps tt before after
