-- ===== src/Coin/First.antt =====
-- The infos that a batch keeps are the first ones: rust/processor/src/processors/coin_processor.rs and
-- rust/processor/src/models/coin_models/coin_activities.rs.
use aptos_indexer_processors.Prelude.{
  ◌≡◌, ◌↔◌, inl, inr, refl, sym, ap, ◌∙◌, Option, none, some, done, panic, unwrap, done-injective,
  >>=-eq-done, List, [], ◌∷◌, text_eq, pair_eq, Text, Has, Option-cases,
}
use aptos_indexer_processors.Prelude.Int.{ℤ}
use aptos_indexer_processors.Prelude.Dict.{lookup, values}
use aptos_indexer_processors.Prelude.Dict.Keyed.{
  or_else, All-lookup, Has-values, values-DifferentKeys,
}
use aptos_indexer_processors.Prelude.Sorted.{text_order, pair_order, Sorted, sort_by_key-Sorted}
use aptos_indexer_processors.Prelude.Sorted.Unique.{Has-sort_by_key}
use aptos_indexer_processors.Protos.{
  Transaction, Event, UserTransactionRequest, Change, delete_module, delete_resource,
  delete_table_item, write_module, write_table_item, write_resource,
}
use aptos_indexer_processors.GrpcStream.Response.{as_i64}
use aptos_indexer_processors.Coin.Resources.{Libraries}
use aptos_indexer_processors.Coin.Rows.{
  CoinBalance, CurrentCoinBalance, CoinInfo, CoinSupply, EventToCoinType,
  balance_from_write_resource, info_from_write_resource, from_write_table_item,
}
use aptos_indexer_processors.Coin.Activities.{
  TransactionCoins, no_coins, Collected, nothing_collected, add_info, add_balance, add_supply,
  collect_change, collect_changes, activities_from,
}
use aptos_indexer_processors.Coin.Transaction.{
  events_of, entry_function_of_request, coins_of, from_transaction,
}
use aptos_indexer_processors.Coin.Keep.{
  Keyed, insert-Keyed, keep_first-Keyed, or_none, lookup-keep_first,
}
use aptos_indexer_processors.Coin.Latest.{or_else_assoc}
use aptos_indexer_processors.Coin.Batch.{
  CoinRows, add_transaction, add_transactions, info_key, sorted_rows, batch_rows,
}

module _ {D N : Type 0} where
  balance_same :
      (row : Option (CoinBalance D N × CurrentCoinBalance D N × EventToCoinType))
      (c : Collected D N)
      → Keyed c.coin_infos
      → Keyed (add_balance row c).coin_infos
  unfolding add_balance
  balance_same none c h = h
  balance_same (some row) c h = h

  supply_same :
      (row : Option (CoinSupply D N)) (c : Collected D N)
      → Keyed c.coin_infos
      → Keyed (add_supply row c).coin_infos
  unfolding add_supply
  supply_same none c h = h
  supply_same (some row) c h = h

module _ {Json D N : Type 0} (lib : Libraries Json D N) where
  collect_change-Keyed :
      (version epoch : ℤ) (at : D) (change : Change) (c after : Collected D N)
      → Keyed c.coin_infos
      → collect_change lib version epoch at change c ≡ done after
      → Keyed after.coin_infos
  unfolding collect_change add_info
  collect_change-Keyed version epoch at (write_resource w) c after h e =
      let (info, _, e1) = >>=-eq-done (info_from_write_resource lib w version at) _ e in
      let (row, _, e2) = >>=-eq-done (balance_from_write_resource lib w version at) _ e1 in
      rw (← done-injective e2) (balance_same row (add_info info c) (with_info info))
    where
      with_info : (info : Option (CoinInfo D)) → Keyed (add_info info c).coin_infos
      with_info none = h
      with_info (some info) = insert-Keyed info c.coin_infos h
  collect_change-Keyed version epoch at (write_table_item item) c after h e =
      let (row, _, e1) = >>=-eq-done (from_write_table_item lib item version at epoch) _ e in
      rw (← done-injective e1) (supply_same row c h)
  collect_change-Keyed version epoch at (delete_module _) c after h e = rw (← done-injective e) h
  collect_change-Keyed version epoch at (delete_resource _) c after h e = rw (← done-injective e) h
  collect_change-Keyed version epoch at (delete_table_item _) c after h e =
      rw (← done-injective e) h
  collect_change-Keyed version epoch at (write_module _) c after h e = rw (← done-injective e) h

  collect_changes-Keyed :
      (version epoch : ℤ) (at : D) (changes : List (Option Change)) (c after : Collected D N)
      → Keyed c.coin_infos
      → collect_changes lib version epoch at changes c ≡ done after
      → Keyed after.coin_infos
  unfolding collect_changes
  collect_changes-Keyed version epoch at [] c after h e = rw (← done-injective e) h
  collect_changes-Keyed version epoch at (change ∷ changes) c after h e =
      let (there, _, e1) = >>=-eq-done (unwrap change) _ e in
      let (more, e2, e3) = >>=-eq-done (collect_change lib version epoch at there c) _ e1 in
      collect_changes-Keyed version epoch at changes more after
        (collect_change-Keyed version epoch at there c more h e2) e3

  coins_of-Keyed :
      (txn : Transaction) (found : List Event × Option UserTransactionRequest)
      (coins : TransactionCoins D N)
      → coins_of lib txn found ≡ done coins
      → Keyed coins.coin_infos
  unfolding coins_of
  coins_of-Keyed txn (events, request) coins e =
      let version = as_i64 txn.version in
      let (info, _, e1) = >>=-eq-done (unwrap txn.info) _ e in
      let (timestamp, _, e2) = >>=-eq-done (unwrap txn.timestamp) _ e1 in
      let (at, _, e3) = >>=-eq-done (unwrap (lib.from_timestamp_opt timestamp.seconds 0)) _ e2 in
      let (function, _, e4) = >>=-eq-done (entry_function_of_request request) _ e3 in
      let (c, e5, e6) =
        >>=-eq-done
          (collect_changes lib version (as_i64 txn.epoch) at info.changes nothing_collected) _ e4 in
      let (activities, _, e7) =
        >>=-eq-done (activities_from lib _ c.event_to_coin_type 0 events) _ e6 in
      rw (← done-injective e7) (
        collect_changes-Keyed version (as_i64 txn.epoch) at info.changes nothing_collected c
          (tt, tt) e5)

  from_transaction-Keyed :
      (txn : Transaction) (coins : TransactionCoins D N)
      → from_transaction lib txn ≡ done coins
      → Keyed coins.coin_infos
  unfolding from_transaction
  from_transaction-Keyed txn coins e = elim (Option-cases (events_of txn.txn_data)) [
    | inl without ↦
        let same : no_coins ≡ coins = cc (done-injective (rw (without, from_transaction) at e)) in
        rw (← same) (tt, tt)
    | inr (found, there) ↦ coins_of-Keyed txn found coins (rw (there, from_transaction) at e)
  ]

  -- The info in the first of the transactions that has one for a coin type.
  abbrev pub first_info : Text → List Transaction → Option (CoinInfo D)
  first_info key [] = none
  first_info key (txn ∷ transactions) =
      let rest = first_info key transactions in
      elim (from_transaction lib txn) [
        | panic ↦ rest
        | done coins ↦ or_else (lookup key coins.coin_infos) rest
      ]

  first_info_step :
      (key : Text) (txn : Transaction) (coins : TransactionCoins D N)
      (transactions : List Transaction)
      → from_transaction lib txn ≡ done coins
      → first_info key (txn ∷ transactions)
        ≡ or_else (lookup key coins.coin_infos) (first_info key transactions)
  first_info_step key txn coins transactions e = rw (first_info, e) refl

  add_transactions_first :
      (all out : TransactionCoins D N) (transactions : List Transaction)
      → Keyed all.coin_infos
      → add_transactions lib all transactions ≡ done out
      → Keyed out.coin_infos
        × ((key : Text)
            → lookup key out.coin_infos
              ≡ or_else (lookup key all.coin_infos) (first_info key transactions))
  unfolding add_transactions add_transaction
  add_transactions_first all out [] h e =
      rw (← done-injective e) (h, λ key. sym (or_none (lookup key all.coin_infos)))
  add_transactions_first all out (txn ∷ transactions) h e =
      let (coins, e1, e2) = >>=-eq-done (from_transaction lib txn) _ e in
      let keyed = from_transaction-Keyed txn coins e1 in
      let (after, firsts) =
        add_transactions_first (add_transaction all coins) out transactions
          (keep_first-Keyed all.coin_infos coins.coin_infos h keyed.1) e2 in
      (
        after,
        λ key.
            firsts key
            ∙ ap (λ o. or_else o (first_info key transactions))
                (lookup-keep_first key all.coin_infos coins.coin_infos)
            ∙ or_else_assoc (lookup key all.coin_infos) (lookup key coins.coin_infos)
                (first_info key transactions)
            ∙ ap (or_else (lookup key all.coin_infos))
                (sym (first_info_step key txn coins transactions e1)),
      )

  -- The rows that a batch sends to `coin_infos` are in the order of their coin types, no two with one coin
  -- type, and a row is among them exactly when it is the info of its coin type in the first transaction
  -- of the batch that has one.
  pub batch_rows-first :
      (transactions : List Transaction) (rows : CoinRows D N)
      → batch_rows lib transactions ≡ done rows
      → Sorted info_key rows.coin_infos
        × ((row : CoinInfo D)
            → Has row rows.coin_infos ↔ (first_info (info_key row) transactions ≡ some row))
  unfolding batch_rows sorted_rows lookup
  batch_rows-first transactions rows e =
      let (all, e1, e2) = >>=-eq-done (add_transactions lib no_coins transactions) _ e in
      let ((distinct, own), firsts) =
        add_transactions_first no_coins all transactions (tt, tt) e1 in
      let infos = all.coin_infos in
      rw (← done-injective e2) (
        sort_by_key-Sorted info_key (values infos)
            (values-DifferentKeys info_key infos distinct own),
        λ row.
            let (unsort, sort) = Has-sort_by_key info_key row (values infos) in
            let (to, from) = Has-values row infos distinct in
            (
              λ has.
                  let (key, there) = to (unsort has) in
                  let is_key = All-lookup (λ p. info_key p.1 ≡ p.0) key row infos own there in
                  sym (firsts (info_key row)) ∙ ap (λ k. lookup k infos) is_key ∙ there,
              λ first. sort (from (info_key row, firsts (info_key row) ∙ first)),
            ),
      )
