-- ===== src/Queries/WellTyped.antt =====
-- Every insert query fits its table.
use aptos_indexer_processors.Prelude.{◌≡◌, refl, List, [], ◌∷◌, ◌++◌, Bool, true, ◌&&◌, All, arith}
use aptos_indexer_processors.Database.{to_lowercase}
use aptos_indexer_processors.Queries.Upsert.{
  Upsert, well_typed, within, member, clause_fits, compares,
}
use aptos_indexer_processors.Queries.Accounts.{accounts_upserts}
use aptos_indexer_processors.Queries.Ans.{ans_upserts}
use aptos_indexer_processors.Queries.Coins.{coins_upserts}
use aptos_indexer_processors.Queries.Default.{default_upserts}
use aptos_indexer_processors.Queries.Events.{events_upserts}
use aptos_indexer_processors.Queries.FungibleAssets.{fungible_assets_upserts}
use aptos_indexer_processors.Queries.Objects.{objects_upserts}
use aptos_indexer_processors.Queries.Stake.{stake_upserts}
use aptos_indexer_processors.Queries.Tokens.{tokens_upserts}
use aptos_indexer_processors.Queries.TokensV2.{tokens_v2_upserts}
use aptos_indexer_processors.Queries.Metadata.{metadata_upserts}
use aptos_indexer_processors.Queries.UserTransactions.{user_transactions_upserts}

abbrev pub every_upsert : List Upsert
every_upsert =
    accounts_upserts ++ ans_upserts ++ coins_upserts ++ default_upserts ++ events_upserts
    ++ fungible_assets_upserts ++ objects_upserts ++ stake_upserts ++ tokens_upserts
    ++ tokens_v2_upserts ++ metadata_upserts ++ user_transactions_upserts

abbrev pub every : {A : Type 0} → (A → Bool) → List A → Bool
every test [] = true
every test (x ∷ xs) = test x && every test xs

pub every-All :
    {A : Type 0} (test : A → Bool) (xs : List A)
    → every test xs ≡ true
    → All (λ x. test x ≡ true) xs
every-All test [] h = tt
every-All test (x ∷ xs) h = (ground arith, every-All test xs (ground arith))

-- In every insert query of the processors the conflict target is the primary key of its table, each column
-- that a conflict updates is a column of the table, and a where clause compares the stored value of one of
-- the updated columns with the new one.
pub every_upsert-well_typed : All (λ u. well_typed u ≡ true) every_upsert
unfolding well_typed within member clause_fits compares to_lowercase
every_upsert-well_typed = every-All well_typed every_upsert refl
