-- ===== src/Coin/Current.antt =====
-- What a batch sends to the two tables that are kept per key: `process_transactions` of
-- rust/processor/src/processors/coin_processor.rs.
use aptos_indexer_processors.Prelude.{
  ◌≡◌, ◌↔◌, inl, inr, refl, sym, ◌∙◌, Option, some, done, unwrap, done-injective, >>=-eq-done, List,
  [], ◌∷◌, text_eq, pair_eq, Has, Option-cases,
}
use aptos_indexer_processors.Prelude.Dict.{lookup, values}
use aptos_indexer_processors.Prelude.Dict.Keyed.{
  extend-Distinct, extend-OwnKeys, lookup-extend, All-lookup, Has-values, values-DifferentKeys,
}
use aptos_indexer_processors.Prelude.Sorted.{text_order, pair_order, Sorted, sort_by_key-Sorted}
use aptos_indexer_processors.Prelude.Sorted.Unique.{Has-sort_by_key}
use aptos_indexer_processors.Protos.{Transaction, Event, UserTransactionRequest}
use aptos_indexer_processors.GrpcStream.Response.{as_i64}
use aptos_indexer_processors.Coin.Resources.{Libraries}
use aptos_indexer_processors.Coin.Rows.{CurrentCoinBalance}
use aptos_indexer_processors.Coin.Activities.{
  TransactionCoins, no_coins, nothing_collected, collect_changes, activities_from,
}
use aptos_indexer_processors.Coin.Transaction.{
  events_of, entry_function_of_request, coins_of, from_transaction,
}
use aptos_indexer_processors.Coin.Batch.{
  CoinRows, add_transaction, add_transactions, balance_key, sorted_rows, batch_rows,
}
use aptos_indexer_processors.Coin.Latest.{latest, latest-append, IsLatest, collect_changes-Good}

module _ {Json D N : Type 0} (lib : Libraries Json D N) where
  abbrev pub Newest : TransactionCoins D N → Type 0
  Newest c = IsLatest c.coin_balances c.current_coin_balances

  coins_of-Newest :
      (txn : Transaction) (found : List Event × Option UserTransactionRequest)
      (coins : TransactionCoins D N)
      → coins_of lib txn found ≡ done coins
      → Newest coins
  unfolding coins_of lookup
  coins_of-Newest txn (events, request) coins e =
      let version = as_i64 txn.version in
      let (info, _, e1) = >>=-eq-done (unwrap txn.info) _ e in
      let (timestamp, _, e2) = >>=-eq-done (unwrap txn.timestamp) _ e1 in
      let (at, _, e3) = >>=-eq-done (unwrap (lib.from_timestamp_opt timestamp.seconds 0)) _ e2 in
      let (function, _, e4) = >>=-eq-done (entry_function_of_request request) _ e3 in
      let (c, e5, e6) =
        >>=-eq-done
          (collect_changes lib version (as_i64 txn.epoch) at info.changes nothing_collected) _ e4 in
      let (activities, _, e7) =
        >>=-eq-done (activities_from lib _ c.event_to_coin_type 0 events) _ e6 in
      let good =
        collect_changes-Good lib version at (as_i64 txn.epoch) info.changes nothing_collected c
          ((λ k. refl, tt, tt), tt, tt) e5 in
      rw (← done-injective e7) good.0

  from_transaction-Newest :
      (txn : Transaction) (coins : TransactionCoins D N)
      → from_transaction lib txn ≡ done coins
      → Newest coins
  unfolding from_transaction lookup
  from_transaction-Newest txn coins e = elim (Option-cases (events_of txn.txn_data)) [
    | inl without ↦
        let same : no_coins ≡ coins = cc (done-injective (rw (without, from_transaction) at e)) in
        rw (← same) (λ k. refl, tt, tt)
    | inr (found, there) ↦ coins_of-Newest txn found coins (rw (there, from_transaction) at e)
  ]

  add-Newest :
      (all txn : TransactionCoins D N) → Newest all → Newest txn → Newest (add_transaction all txn)
  unfolding add_transaction
  add-Newest all txn old new = (
    λ k.
        lookup-extend k all.current_coin_balances txn.current_coin_balances new.1
        ∙ rw (new.0 k, old.0 k, latest-append k all.coin_balances txn.coin_balances) refl,
    extend-Distinct all.current_coin_balances txn.current_coin_balances old.1,
    extend-OwnKeys balance_key all.current_coin_balances txn.current_coin_balances old.2 new.2,
  )

  add_transactions-Newest :
      (all out : TransactionCoins D N) (transactions : List Transaction)
      → Newest all
      → add_transactions lib all transactions ≡ done out
      → Newest out
  unfolding add_transactions
  add_transactions-Newest all out [] newest e = rw (← done-injective e) newest
  add_transactions-Newest all out (txn ∷ transactions) newest e =
      let (coins, e1, e2) = >>=-eq-done (from_transaction lib txn) _ e in
      add_transactions-Newest (add_transaction all coins) out transactions
        (add-Newest all coins newest (from_transaction-Newest txn coins e1)) e2

  -- The rows that a batch sends to `current_coin_balances` are in the order of the table's key, no two with
  -- one key, and a row is among them exactly when it is the last balance of its owner and coin type among
  -- the rows that the batch sends to `coin_balances`.
  pub batch_rows-latest :
      (transactions : List Transaction) (rows : CoinRows D N)
      → batch_rows lib transactions ≡ done rows
      → Sorted balance_key rows.current_coin_balances
        × ((row : CurrentCoinBalance D N)
            → Has row rows.current_coin_balances
              ↔ (latest (balance_key row) rows.coin_balances ≡ some row))
  unfolding batch_rows sorted_rows lookup
  batch_rows-latest transactions rows e =
      let (all, e1, e2) = >>=-eq-done (add_transactions lib no_coins transactions) _ e in
      let (newest, distinct, own) =
        add_transactions-Newest no_coins all transactions (λ k. refl, tt, tt) e1 in
      let current = all.current_coin_balances in
      rw (← done-injective e2) (
        sort_by_key-Sorted balance_key (values current)
            (values-DifferentKeys balance_key current distinct own),
        λ row.
            let (unsort, sort) = Has-sort_by_key balance_key row (values current) in
            let (to, from) = Has-values row current distinct in
            (
              λ has.
                  let (key, there) = to (unsort has) in
                  let is_key = All-lookup (λ p. balance_key p.1 ≡ p.0) key row current own there in
                  sym (newest (balance_key row)) ∙ rw is_key there,
              λ last. sort (from (balance_key row, newest (balance_key row) ∙ last)),
            ),
      )
