-- ===== src/Coin/Origin.antt =====
-- Where the coin type of an activity comes from: rust/processor/src/models/coin_models/coin_activities.rs.
use aptos_indexer_processors.Prelude.{
  ℕ, zero, suc, ◌+◌, ◌≡◌, inl, inr, refl, sym, ap, ◌∙◌, Option, none, some, done, unwrap,
  unwrap-eq-done, done-injective, >>=-eq-done, List, [], ◌∷◌, ◌++◌, nth, text_eq, pair_eq, Text,
  All, All-append, Has, arith,
}
use aptos_indexer_processors.Prelude.Int.{ℤ, pos, int_eq}
use aptos_indexer_processors.Prelude.Dict.{lookup}
use aptos_indexer_processors.Prelude.Dict.Keyed.{All-lookup}
use aptos_indexer_processors.Protos.{Transaction, Event, UserTransactionRequest}
use aptos_indexer_processors.GrpcStream.Response.{as_i64}
use aptos_indexer_processors.Util.Address.{standardize_address}
use aptos_indexer_processors.Coin.Resources.{Libraries, CoinEvent, from_event}
use aptos_indexer_processors.Coin.Rows.{CoinBalance, EventToCoinType}
use aptos_indexer_processors.Coin.Activities.{
  CoinActivity, TransactionCoins, nothing_collected, amount_of, collect_changes, Context,
  from_parsed_event, activity, activities_from,
}
use aptos_indexer_processors.Coin.Transaction.{
  events_of, entry_function_of_request, coins_of, from_transaction,
}
use aptos_indexer_processors.Coin.Latest.{
  TypeOf, Has-append_left, Has-append_right, collect_changes-Good,
}

-- A balance of the same coin type and version.
abbrev pub FromBalance : {D N : Type 0} → List (CoinBalance D N) → CoinActivity D N → Type 0
FromBalance {D} {N} balances a =
    (b : CoinBalance D N) × Has b balances
    × (b.coin_type ≡ a.coin_type)
    × (b.transaction_version ≡ a.transaction_version)

-- The activity of the coin event in a place.
abbrev pub ActivityOf : {D N : Type 0} → List (CoinActivity D N) → ℕ → CoinEvent N → Type 0
ActivityOf {D} {N} activities index coin_event =
    (a : CoinActivity D N) × Has a activities
    × (a.event_index ≡ some (pos index))
    × (a.amount ≡ amount_of coin_event)

Has-All : {A : Type 0} (P : A → Type 0) (xs : List A) → All P xs → (a : A) → Has a xs → P a
Has-All P [] h a has = elim has [ ]
Has-All P (x ∷ xs) h a (inl e) = rw e h.0
Has-All P (x ∷ xs) h a (inr has) = Has-All P xs h.1 a has

module _ {Json D N : Type 0} (lib : Libraries Json D N) where
  module _ (txn : Context D) (mapping : EventToCoinType) (balances : List (CoinBalance D N))
      (known : All (TypeOf balances) mapping)
      (same_version : All (λ b. b.transaction_version ≡ txn.transaction_version) balances) where
    parsed-FromBalance :
        (event : Event) (coin_event : CoinEvent N) (index : ℕ) (row : CoinActivity D N)
        → from_parsed_event lib txn mapping event coin_event index ≡ done row
        → FromBalance balances row
          × (row.event_index ≡ some (pos index))
          × (row.amount ≡ amount_of coin_event)
    unfolding from_parsed_event
    parsed-FromBalance event coin_event index row e =
        let (key, _, e1) = >>=-eq-done (unwrap event.key) _ e in
        let guid : Text × ℤ =
          (standardize_address key.account_address, as_i64 key.creation_number) in
        let (coin_type, e2, e3) = >>=-eq-done (unwrap (lookup guid mapping)) _ e1 in
        let (b, has, type_is) =
          All-lookup (TypeOf balances) guid coin_type mapping known
            (unwrap-eq-done (lookup guid mapping) e2) in
        let version =
          Has-All (λ x. x.transaction_version ≡ txn.transaction_version) balances same_version b
            has in
        rw (← done-injective e3) ((b, has, type_is, version), refl, refl)

    pub activities_from_balances :
        (events : List Event) (index : ℕ) (rows : List (CoinActivity D N))
        → activities_from lib txn mapping index events ≡ done rows
        → All (FromBalance balances) rows
          × ((i : ℕ) (event : Event) (coin_event : CoinEvent N)
              → nth i events ≡ some event
              → from_event lib event.type_str event.data_json ≡ done (some coin_event)
              → ActivityOf rows (i + index) coin_event)
    unfolding activities_from
    activities_from_balances [] index rows e =
        rw (← done-injective e) (tt, λ i event coin_event there. cc)
    activities_from_balances (event ∷ events) index rows e =
        let (parsed, e0, e1) = >>=-eq-done (from_event lib event.type_str event.data_json) _ e in
        let (row, e2, e3) = >>=-eq-done (activity lib txn mapping event index parsed) _ e1 in
        let (more, e4, e5) =
          >>=-eq-done (activities_from lib txn mapping (index + 1) events) _ e3 in
        let (later, each) = activities_from_balances events (index + 1) more e4 in
        let (here, own) = one event index parsed row e2 in
        rw (← done-injective e5) (
          All-append (FromBalance balances) row more here later,
          λ i other coin_event there is_coin.
              place event events index parsed row more e0 own each i other coin_event there is_coin,
        )
      where
        one :
            (event : Event) (index : ℕ) (parsed : Option (CoinEvent N))
            (row : List (CoinActivity D N))
            → activity lib txn mapping event index parsed ≡ done row
            → All (FromBalance balances) row
              × ((coin_event : CoinEvent N)
                  → parsed ≡ some coin_event
                  → ActivityOf row index coin_event)
        one event index none row e = rw (← done-injective e) (tt, λ coin_event no. cc no)
        one event index (some coin_event) row e =
            let (a, e1, e2) =
              >>=-eq-done (from_parsed_event lib txn mapping event coin_event index) _ e in
            let (from, at, amount) = parsed-FromBalance event coin_event index a e1 in
            rw (← done-injective e2) ((from, tt), λ other is. (a, inl refl, at, amount ∙ cc is))

        place :
            (event : Event) (events : List Event) (index : ℕ) (parsed : Option (CoinEvent N))
            (row more : List (CoinActivity D N))
            → from_event lib event.type_str event.data_json ≡ done parsed
            → ((coin_event : CoinEvent N)
                → parsed ≡ some coin_event
                → ActivityOf row index coin_event)
            → ((i : ℕ) (e : Event) (coin_event : CoinEvent N)
                → nth i events ≡ some e
                → from_event lib e.type_str e.data_json ≡ done (some coin_event)
                → ActivityOf more (i + (index + 1)) coin_event)
            → (i : ℕ) (other : Event) (coin_event : CoinEvent N)
            → nth i (event ∷ events) ≡ some other
            → from_event lib other.type_str other.data_json ≡ done (some coin_event)
            → ActivityOf (row ++ more) (i + index) coin_event
        place event events index parsed row more e0 own each zero other coin_event there is_coin =
            let same : event ≡ other = cc there in
            let is : parsed ≡ some coin_event =
              done-injective
                (sym e0 ∙ ap (λ x. from_event lib x.type_str x.data_json) same ∙ is_coin) in
            let (a, has, at, amount) = own coin_event is in
            let from : index ≡ 0 + index = omega arith in
            rw (← from) (a, Has-append_left a row more has, at, amount)
        place event events index parsed row more e0 own each (suc i) other coin_event there
              is_coin =
            let (a, has, at, amount) = each i other coin_event there is_coin in
            let from : i + (index + 1) ≡ suc i + index = omega arith in
            rw (← from) (a, Has-append_right a row more has, at, amount)

  coins_of_origin :
      (txn : Transaction) (events : List Event) (request : Option UserTransactionRequest)
      (coins : TransactionCoins D N)
      → coins_of lib txn (events, request) ≡ done coins
      → All (FromBalance coins.coin_balances) coins.coin_activities
        × ((i : ℕ) (event : Event) (coin_event : CoinEvent N)
            → nth i events ≡ some event
            → from_event lib event.type_str event.data_json ≡ done (some coin_event)
            → ActivityOf coins.coin_activities i coin_event)
  unfolding coins_of lookup
  coins_of_origin txn events request coins e =
      let version = as_i64 txn.version in
      let (info, _, e1) = >>=-eq-done (unwrap txn.info) _ e in
      let (timestamp, _, e2) = >>=-eq-done (unwrap txn.timestamp) _ e1 in
      let (at, _, e3) = >>=-eq-done (unwrap (lib.from_timestamp_opt timestamp.seconds 0)) _ e2 in
      let (function, _, e4) = >>=-eq-done (entry_function_of_request request) _ e3 in
      let (c, e5, e6) =
        >>=-eq-done
          (collect_changes lib version (as_i64 txn.epoch) at info.changes nothing_collected) _ e4 in
      let (activities, e7, e8) =
        >>=-eq-done (activities_from lib _ c.event_to_coin_type 0 events) _ e6 in
      let (newest, known, versions) =
        collect_changes-Good lib version at (as_i64 txn.epoch) info.changes nothing_collected c
          ((λ k. refl, tt, tt), tt, tt) e5 in
      let (from, each) =
        activities_from_balances _ c.event_to_coin_type c.coin_balances known versions events 0
          activities e7 in
      rw (← done-injective e8) (
        from,
        λ i event coin_event there is_coin.
            let place : i + 0 ≡ i = omega arith in
            rw place at (each i event coin_event there is_coin),
      )

  -- In the rows of a genesis or user transaction every activity has the coin type of one of the
  -- transaction's own balances and its version, and each of its events that is a coin event has an
  -- activity with its place and amount.
  pub from_transaction-origin :
      (txn : Transaction) (events : List Event) (request : Option UserTransactionRequest)
      (coins : TransactionCoins D N)
      → events_of txn.txn_data ≡ some (events, request)
      → from_transaction lib txn ≡ done coins
      → All (FromBalance coins.coin_balances) coins.coin_activities
        × ((i : ℕ) (event : Event) (coin_event : CoinEvent N)
            → nth i events ≡ some event
            → from_event lib event.type_str event.data_json ≡ done (some coin_event)
            → ActivityOf coins.coin_activities i coin_event)
  unfolding from_transaction
  from_transaction-origin txn events request coins there e =
      coins_of_origin txn events request coins (rw (there, from_transaction) at e)
