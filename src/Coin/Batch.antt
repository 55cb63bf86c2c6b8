-- ===== src/Coin/Batch.antt =====
-- The rows of a batch of transactions: `process_transactions` of
-- rust/processor/src/processors/coin_processor.rs, up to the insertion. `sort_by` with a comparison of the
-- primary keys is a sort by key.
use aptos_indexer_processors.Prelude.{
  Outcome, done, ◌>>=◌, List, [], ◌∷◌, ◌++◌, text_eq, pair_eq, Text,
}
use aptos_indexer_processors.Prelude.Dict.{Dict, extend, or_insert, values}
use aptos_indexer_processors.Prelude.Sorted.{text_order, pair_order, sort_by_key}
use aptos_indexer_processors.Protos.{Transaction}
use aptos_indexer_processors.Coin.Resources.{Libraries}
use aptos_indexer_processors.Coin.Rows.{CoinBalance, CurrentCoinBalance, CoinInfo, CoinSupply}
use aptos_indexer_processors.Coin.Activities.{CoinActivity, TransactionCoins, no_coins}
use aptos_indexer_processors.Coin.Transaction.{from_transaction}

-- The rows that `insert_to_db` is given.
pub record CoinRows (D N : Type 0) : Type 0 where
  pub coin_activities : List (CoinActivity D N)
  pub coin_infos : List (CoinInfo D)
  pub coin_balances : List (CoinBalance D N)
  pub current_coin_balances : List (CurrentCoinBalance D N)
  pub coin_supply : List (CoinSupply D N)

-- The first info of a coin stays.
unfoldable pub keep_first :
    {D : Type 0} → Dict Text (CoinInfo D) → Dict Text (CoinInfo D) → Dict Text (CoinInfo D)
unfolding or_insert
keep_first infos [] = infos
keep_first infos ((key, value) ∷ rest) = keep_first (or_insert key value infos) rest

-- The body of the loop over the transactions.
unfoldable pub add_transaction :
    {D N : Type 0} → TransactionCoins D N → TransactionCoins D N → TransactionCoins D N
unfolding keep_first extend
add_transaction all txn = record {
  coin_activities = all.coin_activities ++ txn.coin_activities;
  coin_balances = all.coin_balances ++ txn.coin_balances;
  coin_infos = keep_first all.coin_infos txn.coin_infos;
  current_coin_balances = extend all.current_coin_balances txn.current_coin_balances;
  coin_supply = all.coin_supply ++ txn.coin_supply;
}

abbrev pub info_key : {D : Type 0} → CoinInfo D → Text
info_key row = row.coin_type

abbrev pub balance_key : {D N : Type 0} → CurrentCoinBalance D N → Text × Text
balance_key row = (row.owner_address, row.coin_type)

-- The two maps as sorted lists.
unfoldable pub sorted_rows : {D N : Type 0} → TransactionCoins D N → CoinRows D N
unfolding values sort_by_key
sorted_rows all = record {
  coin_activities = all.coin_activities;
  coin_infos = sort_by_key info_key (values all.coin_infos);
  coin_balances = all.coin_balances;
  current_coin_balances = sort_by_key balance_key (values all.current_coin_balances);
  coin_supply = all.coin_supply;
}

module _ {Json D N : Type 0} (lib : Libraries Json D N) where
  unfoldable pub add_transactions :
      TransactionCoins D N → List Transaction → Outcome (TransactionCoins D N)
  unfolding from_transaction add_transaction
  add_transactions all [] = done all
  add_transactions all (txn ∷ transactions) = do
    coins ← from_transaction lib txn
    add_transactions (add_transaction all coins) transactions

  unfoldable pub batch_rows : List Transaction → Outcome (CoinRows D N)
  unfolding add_transactions sorted_rows
  batch_rows transactions = do all ← add_transactions no_coins transactions; done (sorted_rows all)
