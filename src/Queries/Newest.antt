-- ===== src/Queries/Newest.antt =====
-- The insert queries of the tables of current rows, and what is assumed of the database.
use aptos_indexer_processors.Prelude.{
  ◌≡◌, ◌⊎◌, inl, inr, refl, ap, Option, none, some, List, [], ◌∷◌, Bool, true, false, Bool-cases,
  ◌==◌, ◌&&◌, ◌||◌, text_eq, if◌then◌else◌, Text, bytes, All, Has, arith,
}
use aptos_indexer_processors.Prelude.Int.{ℤ, ◌≤ℤ◌}
use aptos_indexer_processors.Database.{to_lowercase, contains, effective_clause}
use aptos_indexer_processors.Queries.Upsert.{
  Upsert, member, updated, column_names, newest_by, guard_column, first_column,
}
use aptos_indexer_processors.Queries.WellTyped.{every}
use aptos_indexer_processors.Queries.Ans.{
  insert_current_ans_lookups_query, insert_current_ans_primary_names_query,
  insert_current_ans_lookups_v2_query, insert_current_ans_primary_names_v2_query,
}
use aptos_indexer_processors.Queries.Default.{insert_current_table_items_query}
use aptos_indexer_processors.Queries.FungibleAssets.{
  insert_fungible_asset_metadata_query, insert_current_fungible_asset_balances_query,
}
use aptos_indexer_processors.Queries.Objects.{insert_current_objects_query}
use aptos_indexer_processors.Queries.Stake.{
  insert_current_stake_pool_voter_query, insert_current_delegator_balances_query,
  insert_current_delegator_pool_balances_query, insert_current_delegated_voter_query,
}
use aptos_indexer_processors.Queries.TokensV2.{
  insert_current_collections_v2_query, insert_current_token_v2_metadatas_query,
}

-- The queries of the tables of current rows that write the whole row.
abbrev pub newest_wins_upserts : List Upsert
newest_wins_upserts =
    insert_current_ans_lookups_query ∷ insert_current_ans_primary_names_query
    ∷ insert_current_ans_lookups_v2_query ∷ insert_current_ans_primary_names_v2_query
    ∷ insert_current_table_items_query ∷ insert_fungible_asset_metadata_query
    ∷ insert_current_fungible_asset_balances_query ∷ insert_current_objects_query
    ∷ insert_current_stake_pool_voter_query ∷ insert_current_delegator_balances_query
    ∷ insert_current_delegator_pool_balances_query ∷ insert_current_delegated_voter_query
    ∷ insert_current_collections_v2_query ∷ insert_current_token_v2_metadatas_query ∷ []

abbrev pub last_transaction_version : Text
last_transaction_version = bytes "last_transaction_version"

-- Each column is updated or part of the key.
abbrev pub complete : List Text → List Text → List Text → Bool
complete [] up key = true
complete (c ∷ cs) up key = (member c up || member c key) && complete cs up key

abbrev pub guarded_by_version : Option Text → Bool
guarded_by_version none = false
guarded_by_version (some c) = c == last_transaction_version

-- A conflict writes every column but the key, if the new row's version is at least the stored one's.
abbrev pub newest_wins : Upsert → Bool
newest_wins u =
    guarded_by_version (guard_column u)
    && (member last_transaction_version (updated u.action)
        && complete (column_names u.table.columns) (updated u.action) u.table.primary_key)

pub newest_wins_all : every newest_wins newest_wins_upserts ≡ true
unfolding member guard_column newest_by to_lowercase
newest_wins_all = refl

-- A row by its columns' values.
abbrev pub Row : Type 0 → Type 0
Row V = Text → V

-- What Postgres documents of `INSERT .. ON CONFLICT .. DO UPDATE SET .. WHERE ..`, for rows of one key:
-- `upsert u clause old new` is the row that is stored after `new` was inserted where `old` was, with the
-- where clause `clause`. The clause of `u` itself lets a row in by its version; without a clause each is.
pub record Postgres (V : Type 0) : Type 0 where
  pub version_of : V → ℤ
  pub upsert : Upsert → Option Text → Option (Row V) → Row V → Row V
  pub inserted : (u : Upsert) (clause : Option Text) (new : Row V) → upsert u clause none new ≡ new
  pub kept :
      (u : Upsert) (old new : Row V) (c : Text)
      → guard_column u ≡ some c
      → ¬ (version_of (old c) ≤ℤ version_of (new c))
      → upsert u u.clause (some old) new ≡ old
  pub taken :
      (u : Upsert) (old new : Row V) (c : Text)
      → guard_column u ≡ some c
      → version_of (old c) ≤ℤ version_of (new c)
      → (column : Text)
      → upsert u u.clause (some old) new column
        ≡ (if member column (updated u.action) then new column else old column)
  pub kept_first :
      (u : Upsert) (old new : Row V) (c : Text)
      → guard_column u ≡ none
      → first_column u ≡ some c
      → ¬ (version_of (new c) ≤ℤ version_of (old c))
      → upsert u u.clause (some old) new ≡ old
  pub taken_first :
      (u : Upsert) (old new : Row V) (c : Text)
      → guard_column u ≡ none
      → first_column u ≡ some c
      → version_of (new c) ≤ℤ version_of (old c)
      → (column : Text)
      → upsert u u.clause (some old) new column
        ≡ (if member column (updated u.action) then new column else old column)
  pub unguarded :
      (u : Upsert) (old new : Row V) (column : Text)
      → upsert u none (some old) new column
        ≡ (if member column (updated u.action) then new column else old column)

-- A row and the text of the query, with all its bound values, in which it goes to the database.
pub record Insertion (V : Type 0) : Type 0 where
  pub original_query : Text
  pub row : Row V

-- The text does not contain `where` in any spelling, so the clause is not dropped.
abbrev pub KeepsClause : Text → Type 0
KeepsClause original_query = contains (to_lowercase original_query) (bytes "where") ≡ false

pub effective_clause-kept :
    (original_query : Text) (clause : Option Text)
    → KeepsClause original_query
    → effective_clause original_query clause ≡ clause
unfolding effective_clause
effective_clause-kept original_query clause h = rw h refl

pub member_of_All :
    (u : Upsert) (us : List Upsert)
    → All (λ x. newest_wins x ≡ true) us
    → Has u us
    → newest_wins u ≡ true
member_of_All u [] h has = elim has [ ]
member_of_All u (x ∷ us) h (inl e) = rw e h.0
member_of_All u (x ∷ us) h (inr has) = member_of_All u us h.1 has

pub complete_cases :
    (cs up key : List Text) (c : Text)
    → complete cs up key ≡ true
    → member c cs ≡ true
    → (member c up ≡ true) ⊎ (member c key ≡ true)
unfolding member
complete_cases [] up key c h has = cc
complete_cases (x ∷ cs) up key c h has = elim (Bool-cases (c == x)) [
  | inl same ↦
      let is : c ≡ x = (text_eq.same_iff c x).0 same in
      rw is (either (member x up) (member x key) (ground arith))
  | inr differ ↦ complete_cases cs up key c (ground arith) (rw differ at has)
]
  where
    either : (a b : Bool) → (a || b) ≡ true → (a ≡ true) ⊎ (b ≡ true)
    either true b h = inl refl
    either false b h = inr h

-- What `newest_wins` says of a query.
pub newest_wins_parts :
    (u : Upsert)
    → newest_wins u ≡ true
    → (guard_column u ≡ some last_transaction_version)
      × (member last_transaction_version (updated u.action) ≡ true)
      × (complete (column_names u.table.columns) (updated u.action) u.table.primary_key ≡ true)
newest_wins_parts u h =
    let parts =
      three (guarded_by_version (guard_column u))
        (member last_transaction_version (updated u.action))
        (complete (column_names u.table.columns) (updated u.action) u.table.primary_key) h in
    (by_version (guard_column u) parts.0, parts.1, parts.2)
  where
    three : (a b c : Bool) → (a && (b && c)) ≡ true → (a ≡ true) × (b ≡ true) × (c ≡ true)
    three true true true h = (refl, refl, refl)
    three true true false h = cc
    three true false c h = cc
    three false b c h = cc

    by_version : (g : Option Text) → guarded_by_version g ≡ true → g ≡ some last_transaction_version
    by_version none e = cc
    by_version (some c) e = ap some ((text_eq.same_iff c last_transaction_version).0 e)

-- One insertion after the other, for one key.
abbrev pub insert_all :
    {V : Type 0} → Postgres V → Upsert → Option (Row V) → List (Insertion V) → Option (Row V)
insert_all db u stored [] = stored
insert_all db u stored (i ∷ is) =
    let clause = effective_clause i.original_query u.clause in
    insert_all db u (some (db.upsert u clause stored i.row)) is

module _ {V : Type 0} (db : Postgres V) (u : Upsert) (newest : Row V) where
  abbrev pub version : Row V → ℤ
  version row = db.version_of (row last_transaction_version)

  abbrev pub SameKey : Row V → Type 0
  SameKey row = (c : Text) → member c u.table.primary_key ≡ true → row c ≡ newest c

  -- Of the same key, and older.
  abbrev pub Older : Row V → Type 0
  Older row = SameKey row × ¬ (version newest ≤ℤ version row)

  -- An insertion of an older row by a query that keeps its clause.
  abbrev pub InsertsOlder : Insertion V → Type 0
  InsertsOlder i = Older i.row × KeepsClause i.original_query

  -- As the newest row in all columns.
  abbrev pub IsNewest : Row V → Type 0
  IsNewest row = (c : Text) → member c (column_names u.table.columns) ≡ true → row c ≡ newest c

pub at_most_same : (a b c : ℤ) → b ≡ c → a ≤ℤ b → a ≤ℤ c
at_most_same a b c e h = rw (← e) h
