-- ===== src/Queries/Guarded.antt =====
-- What a where clause keeps in a table: the newest version of a key, or the oldest.
use aptos_indexer_processors.Prelude.{
  ◌≡◌, ◌⊎◌, Option, none, some, List, Bool, true, false, Text, All, Has,
}
use aptos_indexer_processors.Prelude.Int.{ℤ, ◌≤ℤ◌}
use aptos_indexer_processors.Queries.Upsert.{Upsert, member, updated, guard_column, first_column}
use aptos_indexer_processors.Queries.Newest.{Row, Postgres, Insertion}

abbrev among_updated : Option Text → List Text → Bool
among_updated none columns = false
among_updated (some c) columns = member c columns

-- The column of the clause, in either direction.
abbrev by_column : Option Text → Option Text → List Text → Bool
by_column (some c) first columns = member c columns
by_column none first columns = among_updated first columns

abbrev bounded_by : Option Text → Option Text → Option Text → List Text → Bool
bounded_by none guard first columns = true
bounded_by (some clause) guard first columns = by_column guard first columns

-- The clause, if there is one, compares a column that the conflict updates.
abbrev bounded : Upsert → Bool
bounded u = bounded_by u.clause (guard_column u) (first_column u) (updated u.action)

-- The version in the column `c` of the final row is one of those of the stored and the inserted rows, and
-- stands in the relation to all of them.
abbrev pub IsBest :
    {V : Type 0} → (V → ℤ) → (ℤ → ℤ → Type 0) → Text → Row V → List (Insertion V) → Row V → Type 0
IsBest {V} version_of R c stored is row =
    R (version_of (stored c)) (version_of (row c))
    × All (λ i. R (version_of (i.row c)) (version_of (row c))) is
    × ((row c ≡ stored c) ⊎ ((i : Insertion V) × Has i is × (row c ≡ i.row c)))

abbrev pub AtMostAsNew : ℤ → ℤ → Type 0
AtMostAsNew a b = a ≤ℤ b

abbrev pub AtLeastAsNew : ℤ → ℤ → Type 0
AtLeastAsNew a b = b ≤ℤ a

module _ {V : Type 0} (db : Postgres V) (u : Upsert) (c : Text) (R : ℤ → ℤ → Type 0)
    (reflexive : (a : ℤ) → R a a) (transitive : (a b d : ℤ) → R a b → R b d → R a d)
    -- An insertion takes the new version or keeps the row, whichever is better.
    (decides : (old new : Row V)
      → ((db.upsert u u.clause (some old) new c ≡ new c)
          × R (db.version_of (old c)) (db.version_of (new c)))
        ⊎ ((db.upsert u u.clause (some old) new ≡ old)
            × R (db.version_of (new c)) (db.version_of (old c)))) where
  abbrev v : Row V → ℤ
  v row = db.version_of (row c)
