-- ===== src/Queries/Upsert.antt =====
-- Tables and insert queries as values: what diesel's `insert_into(..).on_conflict(..)` says, with the where
-- clause that the processors append to it. A column is its name.
use aptos_indexer_processors.Prelude.{
  ℕ, Option, none, some, List, [], ◌∷◌, ◌++◌, Bool, true, false, ◌==◌, ◌&&◌, ◌||◌, text_eq,
  if◌then◌else◌, Text, bytes,
}
use aptos_indexer_processors.Database.{to_lowercase}

-- The types of diesel's columns; a Varchar with its `max_length`.
pub data SqlType : Type 0 where
  sql_bool sql_int4 sql_int8 sql_jsonb sql_bytea sql_numeric sql_text sql_timestamp : SqlType
  sql_varchar : Option ℕ → SqlType

pub record Column : Type 0 where
  pub name : Text
  pub sql_type : SqlType
  pub nullable : Bool

abbrev pub required : Text → SqlType → Column
required name sql_type = record { name = name; sql_type = sql_type; nullable = false }

abbrev pub optional : Text → SqlType → Column
optional name sql_type = record { name = name; sql_type = sql_type; nullable = true }

-- `diesel::table!`
pub record Table : Type 0 where
  pub name : Text
  pub primary_key : List Text
  pub columns : List Column

-- `do_update().set(..)` lists the columns that take the value of `excluded`.
pub data Action : Type 0 where
  do_nothing : Action
  do_update : List Text → Action

pub record Upsert : Type 0 where
  pub table : Table
  pub on_conflict : List Text
  pub action : Action
  pub clause : Option Text

unfoldable pub member : Text → List Text → Bool
member x [] = false
member x (y ∷ ys) = x == y || member x ys

unfoldable pub within : List Text → List Text → Bool
unfolding member
within [] ys = true
within (x ∷ xs) ys = member x ys && within xs ys

abbrev pub updated : Action → List Text
updated do_nothing = []
updated (do_update columns) = columns

abbrev pub column_names : List Column → List Text
column_names [] = []
column_names (c ∷ cs) = c.name ∷ column_names cs

-- The clause that compares the stored row's column with that of the new row.
abbrev pub comparison : Text → Text → Text → Text
comparison table column operator =
    bytes " where "
    ++ table
    ++ bytes "."
    ++ column
    ++ operator
    ++ bytes "excluded."
    ++ column
    ++ bytes " "

abbrev pub at_most : Text
at_most = bytes " <= "

abbrev pub at_least : Text
at_least = bytes " >= "

-- The clause is a comparison of one of the columns.
unfoldable pub compares : Text → Text → List Text → Bool
compares clause table [] = false
compares clause table (column ∷ columns) =
    (clause == comparison table column at_most || clause == comparison table column at_least)
    || compares clause table columns

unfoldable pub clause_fits : Upsert → Bool
unfolding compares to_lowercase
clause_fits u = elim u.clause [
  | none ↦ true
  | some clause ↦ compares (to_lowercase clause) u.table.name (updated u.action)
]

-- Postgres accepts the query: the conflict target is the primary key, the updated columns are columns of
-- the table, and the clause compares one of them.
unfoldable pub well_typed : Upsert → Bool
unfolding within clause_fits
well_typed u =
    (within u.on_conflict u.table.primary_key && within u.table.primary_key u.on_conflict)
    && (within (updated u.action) (column_names u.table.columns) && clause_fits u)

-- The updated column by which the clause lets a new row in when it is at least as new as the stored one.
unfoldable pub newest_by : Text → Text → List Text → Option Text
newest_by clause table [] = none
newest_by clause table (column ∷ columns) =
    let rest = newest_by clause table columns in
    if clause == comparison table column at_most then some column else rest

unfoldable pub guard_column : Upsert → Option Text
unfolding newest_by to_lowercase
guard_column u = elim u.clause [
  | none ↦ none
  | some clause ↦ newest_by (to_lowercase clause) u.table.name (updated u.action)
]

-- The updated column by which the clause lets a new row in when it is at most as new as the stored one.
unfoldable pub oldest_by : Text → Text → List Text → Option Text
oldest_by clause table [] = none
oldest_by clause table (column ∷ columns) =
    let rest = oldest_by clause table columns in
    if clause == comparison table column at_least then some column else rest

unfoldable pub first_column : Upsert → Option Text
unfolding oldest_by to_lowercase
first_column u = elim u.clause [
  | none ↦ none
  | some clause ↦ oldest_by (to_lowercase clause) u.table.name (updated u.action)
]
