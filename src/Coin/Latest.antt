-- ===== src/Coin/Latest.antt =====
-- The current balances of a transaction are its last balances: the loop over the write set changes in
-- rust/processor/src/models/coin_models/coin_activities.rs.
use aptos_indexer_processors.Prelude.{
  ◌≡◌, inl, inr, refl, sym, ap, ◌∙◌, Option, none, some, done, unwrap, done-injective, >>=-eq-done,
  List, [], ◌∷◌, ◌++◌, Bool, true, false, ◌==◌, text_eq, pair_eq, if◌then◌else◌, Text, All, Has,
  All-map, All-append,
}
use aptos_indexer_processors.Prelude.Int.{ℤ, int_eq}
use aptos_indexer_processors.Prelude.Dict.{Dict, lookup, insert, lookup-insert}
use aptos_indexer_processors.Prelude.Dict.Keyed.{
  Distinct, OwnKeys, or_else, insert-Distinct, insert-OwnKeys, All-insert, All-extend,
}
use aptos_indexer_processors.Protos.{
  WriteResource, Change, delete_module, delete_resource, delete_table_item, write_module,
  write_table_item, write_resource,
}
use aptos_indexer_processors.Coin.Resources.{
  Libraries, CoinResource, coin_info_resource, coin_store_resource, CoinStoreResource,
  get_standardized, get_coin_type_trunc, from_write_resource,
}
use aptos_indexer_processors.Coin.Rows.{
  CoinBalance, CurrentCoinBalance, CoinInfo, CoinSupply, EventToCoinType, guid_key,
  event_to_coin_mapping, coin_info_type_of, balance_of, balance_of_resource,
  balance_from_write_resource, info_from_write_resource, from_write_table_item,
}
use aptos_indexer_processors.Coin.Activities.{
  Collected, add_info, add_balance, add_supply, collect_change, collect_changes,
}
use aptos_indexer_processors.Coin.Batch.{balance_key}

abbrev pub current_of : {D N : Type 0} → CoinBalance D N → CurrentCoinBalance D N
current_of b = record {
  owner_address = b.owner_address;
  coin_type_hash = b.coin_type_hash;
  coin_type = b.coin_type;
  amount = b.amount;
  last_transaction_version = b.transaction_version;
  last_transaction_timestamp = b.transaction_timestamp;
}

-- The last balance of an owner and a coin type, as a current one.
abbrev pub latest :
    {D N : Type 0} → Text × Text → List (CoinBalance D N) → Option (CurrentCoinBalance D N)
latest key [] = none
latest key (b ∷ bs) =
    or_else (latest key bs)
      (if (b.owner_address, b.coin_type) == key then some (current_of b) else none)

pub or_else_assoc :
    {V : Type 0} (a b c : Option V) → or_else (or_else a b) c ≡ or_else a (or_else b c)
or_else_assoc none b c = refl
or_else_assoc (some a) b c = refl

or_else-none : {V : Type 0} (a : Option V) → or_else a none ≡ a
or_else-none none = refl
or_else-none (some a) = refl

pub latest-append :
    {D N : Type 0} (key : Text × Text) (bs cs : List (CoinBalance D N))
    → latest key (bs ++ cs) ≡ or_else (latest key cs) (latest key bs)
latest-append key [] cs = sym (or_else-none (latest key cs))
latest-append key (b ∷ bs) cs =
    rw (latest-append key bs cs) (or_else_assoc (latest key cs) (latest key bs) _)

-- The current balances are the last of the balances, each under its own key.
abbrev pub IsLatest :
    {D N : Type 0} → List (CoinBalance D N) → Dict (Text × Text) (CurrentCoinBalance D N) → Type 0
IsLatest balances current =
    ((key : Text × Text) → lookup key current ≡ latest key balances)
    × Distinct current
    × OwnKeys balance_key current

-- A coin type of one of the balances.
abbrev pub TypeOf : {D N : Type 0} → List (CoinBalance D N) → (Text × ℤ) × Text → Type 0
TypeOf {D} {N} balances p = (b : CoinBalance D N) × Has b balances × (b.coin_type ≡ p.1)

-- What holds of the values that the loop collects for a version.
abbrev pub Good : {D N : Type 0} → ℤ → Collected D N → Type 0
Good version c =
    IsLatest c.coin_balances c.current_coin_balances
    × All (TypeOf c.coin_balances) c.event_to_coin_type
    × All (λ b. b.transaction_version ≡ version) c.coin_balances

pub Has-append_left : {A : Type 0} (a : A) (xs ys : List A) → Has a xs → Has a (xs ++ ys)
Has-append_left a [] ys h = elim h [ ]
Has-append_left a (x ∷ xs) ys (inl e) = inl e
Has-append_left a (x ∷ xs) ys (inr h) = inr (Has-append_left a xs ys h)

pub Has-append_right : {A : Type 0} (a : A) (xs ys : List A) → Has a ys → Has a (xs ++ ys)
Has-append_right a [] ys h = h
Has-append_right a (x ∷ xs) ys h = inr (Has-append_right a xs ys h)

module _ {Json D N : Type 0} (lib : Libraries Json D N) (version : ℤ) (at : D) where
  -- What a balance, the current one and the mapping have in common.
  abbrev Match : CoinBalance D N × CurrentCoinBalance D N × EventToCoinType → Type 0
  Match row =
      (row.1 ≡ current_of row.0)
      × All (λ p. row.0.coin_type ≡ p.1) row.2
      × (row.0.transaction_version ≡ version)

  mapping_types :
      (inner : CoinStoreResource N) (coin_type : Text)
      → All (λ p. coin_type ≡ p.1) (event_to_coin_mapping inner coin_type)
  unfolding event_to_coin_mapping
  mapping_types inner coin_type =
      let has : (Text × ℤ) × Text → Type 0 = λ p. coin_type ≡ p.1 in
      let withdrawn = guid_key (get_standardized inner.withdraw_events) in
      All-insert {K = Text × ℤ} has (guid_key (get_standardized inner.deposit_events)) coin_type
        (insert withdrawn coin_type []) refl
        (All-insert {K = Text × ℤ} has withdrawn coin_type [] refl tt)

  balance_matches :
      (w : WriteResource) (row : CoinBalance D N × CurrentCoinBalance D N × EventToCoinType)
      → balance_from_write_resource lib w version at ≡ done (some row)
      → Match row
  unfolding balance_from_write_resource balance_of
  balance_matches w row e =
      let (resource, _, e1) = >>=-eq-done (from_write_resource lib w) _ e in of_resource resource e1
    where
      of_resource :
          (resource : Option (CoinResource N))
          → balance_of_resource lib w version at resource ≡ done (some row)
          → Match row
      of_resource none e1 = cc (done-injective e1)
      of_resource (some (coin_info_resource _)) e1 = cc (done-injective e1)
      of_resource (some (coin_store_resource inner)) e1 =
          let (found, e2, e3) = >>=-eq-done (balance_of lib w version at inner) _ e1 in
          let (info_type, _, e4) = >>=-eq-done (coin_info_type_of lib w) _ e2 in
          let (coin_type, _, e5) = >>=-eq-done (get_coin_type_trunc info_type) _ e4 in
          let same : found ≡ row = cc (done-injective e3) in
          rw (← same) (rw (← done-injective e5) (refl, mapping_types inner coin_type, refl))

  info_keeps :
      (info : Option (CoinInfo D)) (c : Collected D N)
      → Good version c
      → Good version (add_info info c)
  unfolding add_info
  info_keeps none c good = good
  info_keeps (some info) c good = good

  supply_keeps :
      (row : Option (CoinSupply D N)) (c : Collected D N)
      → Good version c
      → Good version (add_supply row c)
  unfolding add_supply
  supply_keeps none c good = good
  supply_keeps (some row) c good = good

  choice :
      (test : Bool) (k : Text × Text) (c : Collected D N) (b : CoinBalance D N)
      → (if test then some (current_of b) else latest k c.coin_balances)
        ≡ or_else (if test then some (current_of b) else none) (latest k c.coin_balances)
  choice true k c b = refl
  choice false k c b = refl

  balance_keeps :
      (row : Option (CoinBalance D N × CurrentCoinBalance D N × EventToCoinType))
      (c : Collected D N)
      → ((found : CoinBalance D N × CurrentCoinBalance D N × EventToCoinType)
          → row ≡ some found
          → Match found)
      → Good version c
      → Good version (add_balance row c)
  unfolding add_balance
  balance_keeps none c matches good = good
  balance_keeps (some (b, current, mapping)) c matches good =
      let (is_current, types, of_version) = matches (b, current, mapping) refl in
      let ((newest, distinct, own), known, versions) = good in
      let key : Text × Text = (b.owner_address, b.coin_type) in
      (
        (
          λ k.
              lookup-insert key k current c.current_coin_balances
              ∙ rw (is_current, newest k, latest-append k c.coin_balances (b ∷ []))
                  (choice (key == k) k c b),
          insert-Distinct key current c.current_coin_balances distinct,
          insert-OwnKeys balance_key key current c.current_coin_balances (rw is_current refl) own,
        ),
        All-extend (TypeOf (c.coin_balances ++ (b ∷ []))) c.event_to_coin_type mapping
            (All-map (TypeOf c.coin_balances) (TypeOf (c.coin_balances ++ (b ∷ [])))
              c.event_to_coin_type
              (λ p h. (h.0, Has-append_left h.0 c.coin_balances (b ∷ []) h.1, h.2)) known)
            (All-map (λ p. b.coin_type ≡ p.1) (TypeOf (c.coin_balances ++ (b ∷ []))) mapping
              (λ p h. (b, Has-append_right b c.coin_balances (b ∷ []) (inl refl), h)) types),
        All-append (λ x. x.transaction_version ≡ version) c.coin_balances (b ∷ []) versions
            (of_version, tt),
      )

  collect_change-Good :
      (epoch : ℤ) (change : Change) (c after : Collected D N)
      → Good version c
      → collect_change lib version epoch at change c ≡ done after
      → Good version after
  unfolding collect_change
  collect_change-Good epoch (write_resource w) c after good e =
      let (info, _, e1) = >>=-eq-done (info_from_write_resource lib w version at) _ e in
      let (row, e2, e3) = >>=-eq-done (balance_from_write_resource lib w version at) _ e1 in
      rw (← done-injective e3) (
        balance_keeps row (add_info info c) (λ found is. balance_matches w found (e2 ∙ ap done is))
          (info_keeps info c good))
  collect_change-Good epoch (write_table_item item) c after good e =
      let (row, _, e1) = >>=-eq-done (from_write_table_item lib item version at epoch) _ e in
      rw (← done-injective e1) (supply_keeps row c good)
  collect_change-Good epoch (delete_module _) c after good e = rw (← done-injective e) good
  collect_change-Good epoch (delete_resource _) c after good e = rw (← done-injective e) good
  collect_change-Good epoch (delete_table_item _) c after good e = rw (← done-injective e) good
  collect_change-Good epoch (write_module _) c after good e = rw (← done-injective e) good

  pub collect_changes-Good :
      (epoch : ℤ) (changes : List (Option Change)) (c after : Collected D N)
      → Good version c
      → collect_changes lib version epoch at changes c ≡ done after
      → Good version after
  unfolding collect_changes
  collect_changes-Good epoch [] c after good e = rw (← done-injective e) good
  collect_changes-Good epoch (change ∷ changes) c after good e =
      let (there, _, e1) = >>=-eq-done (unwrap change) _ e in
      let (more, e2, e3) = >>=-eq-done (collect_change lib version epoch at there c) _ e1 in
      collect_changes-Good epoch changes more after (collect_change-Good epoch there c more good e2)
        e3
