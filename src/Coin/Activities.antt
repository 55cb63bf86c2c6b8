-- ===== src/Coin/Activities.antt =====
-- `CoinActivity` of rust/processor/src/models/coin_models/coin_activities.rs: the rows for one transaction.
use aptos_indexer_processors.Prelude.{
  ℕ, ◌+◌, Option, none, some, Outcome, done, ◌>>=◌, unwrap, List, [], ◌∷◌, ◌++◌, Bool, true, false,
  text_eq, pair_eq, Text, bytes,
}
use aptos_indexer_processors.Prelude.Int.{ℤ, pos, negsuc, int_eq}
use aptos_indexer_processors.Prelude.Dict.{Dict, lookup, insert, extend}
use aptos_indexer_processors.Protos.{
  Event, Change, delete_module, delete_resource, delete_table_item, write_module, write_table_item,
  write_resource,
}
use aptos_indexer_processors.GrpcStream.Response.{as_i64}
use aptos_indexer_processors.Util.Address.{standardize_address}
use aptos_indexer_processors.Coin.Resources.{
  Libraries, CoinEvent, withdraw_coin_event, deposit_coin_event, from_event,
}
use aptos_indexer_processors.Coin.Rows.{
  CoinBalance, CurrentCoinBalance, CoinInfo, CoinSupply, EventToCoinType,
  balance_from_write_resource, info_from_write_resource, from_write_table_item,
}

abbrev pub gas_fee_event : Text
gas_fee_event = bytes "0x1::aptos_coin::GasFeeEvent"

-- -1
abbrev pub burn_gas_event_creation_num : ℤ
burn_gas_event_creation_num = negsuc 0

abbrev pub burn_gas_event_index : ℤ
burn_gas_event_index = negsuc 0

pub record CoinActivity (D N : Type 0) : Type 0 where
  pub transaction_version : ℤ
  pub event_account_address : Text
  pub event_creation_number : ℤ
  pub event_sequence_number : ℤ
  pub owner_address : Text
  pub coin_type : Text
  pub amount : N
  pub activity_type : Text
  pub is_gas_fee : Bool
  pub is_transaction_success : Bool
  pub entry_function_id_str : Option Text
  pub block_height : ℤ
  pub transaction_timestamp : D
  pub event_index : Option ℤ
  pub gas_fee_payer_address : Option Text
  pub storage_refund_amount : N

-- What the loop over the write set changes collects.
pub record Collected (D N : Type 0) : Type 0 where
  pub coin_balances : List (CoinBalance D N)
  pub coin_infos : Dict Text (CoinInfo D)
  pub current_coin_balances : Dict (Text × Text) (CurrentCoinBalance D N)
  pub event_to_coin_type : EventToCoinType
  pub coin_supply : List (CoinSupply D N)

abbrev pub nothing_collected : {D N : Type 0} → Collected D N
nothing_collected = record {
  coin_balances = [];
  coin_infos = [];
  current_coin_balances = [];
  event_to_coin_type = [];
  coin_supply = [];
}

-- The values that `from_transaction` returns.
pub record TransactionCoins (D N : Type 0) : Type 0 where
  pub coin_activities : List (CoinActivity D N)
  pub coin_balances : List (CoinBalance D N)
  pub coin_infos : Dict Text (CoinInfo D)
  pub current_coin_balances : Dict (Text × Text) (CurrentCoinBalance D N)
  pub coin_supply : List (CoinSupply D N)

abbrev pub no_coins : {D N : Type 0} → TransactionCoins D N
no_coins = record {
  coin_activities = [];
  coin_balances = [];
  coin_infos = [];
  current_coin_balances = [];
  coin_supply = [];
}

unfoldable pub amount_of : {N : Type 0} → CoinEvent N → N
amount_of (withdraw_coin_event amount) = amount
amount_of (deposit_coin_event amount) = amount

unfoldable pub add_info : {D N : Type 0} → Option (CoinInfo D) → Collected D N → Collected D N
add_info none c = c
add_info (some coin_info) c = record {
  coin_balances = c.coin_balances;
  coin_infos = insert coin_info.coin_type coin_info c.coin_infos;
  current_coin_balances = c.current_coin_balances;
  event_to_coin_type = c.event_to_coin_type;
  coin_supply = c.coin_supply;
}

unfoldable pub add_balance :
    {D N : Type 0}
    → Option (CoinBalance D N × CurrentCoinBalance D N × EventToCoinType)
    → Collected D N
    → Collected D N
add_balance none c = c
add_balance (some (balance, current, mapping)) c = record {
  coin_balances = c.coin_balances ++ (balance ∷ []);
  coin_infos = c.coin_infos;
  current_coin_balances =
      insert (balance.owner_address, balance.coin_type) current c.current_coin_balances;
  event_to_coin_type = extend c.event_to_coin_type mapping;
  coin_supply = c.coin_supply;
}

unfoldable pub add_supply : {D N : Type 0} → Option (CoinSupply D N) → Collected D N → Collected D N
add_supply none c = c
add_supply (some supply) c = record {
  coin_balances = c.coin_balances;
  coin_infos = c.coin_infos;
  current_coin_balances = c.current_coin_balances;
  event_to_coin_type = c.event_to_coin_type;
  coin_supply = c.coin_supply ++ (supply ∷ []);
}

module _ {Json D N : Type 0} (lib : Libraries Json D N) (version epoch : ℤ) (at : D) where
  -- The body of the loop over the write set changes.
  unfoldable pub collect_change : Change → Collected D N → Outcome (Collected D N)
  unfolding add_info add_balance add_supply
  collect_change (write_resource w) c = do
    info ← info_from_write_resource lib w version at
    balance ← balance_from_write_resource lib w version at
    done (add_balance balance (add_info info c))
  collect_change (write_table_item item) c = do
    supply ← from_write_table_item lib item version at epoch
    done (add_supply supply c)
  collect_change (delete_module _) c = done c
  collect_change (delete_resource _) c = done c
  collect_change (delete_table_item _) c = done c
  collect_change (write_module _) c = done c

  unfoldable pub collect_changes : List (Option Change) → Collected D N → Outcome (Collected D N)
  unfolding collect_change
  collect_changes [] c = done c
  collect_changes (change ∷ changes) c = do
    there ← unwrap change
    more ← collect_change there c
    collect_changes changes more

-- The fields that the activities of one transaction share.
pub record Context (D : Type 0) : Type 0 where
  pub transaction_version : ℤ
  pub block_height : ℤ
  pub entry_function_id_str : Option Text
  pub transaction_timestamp : D

module _ {Json D N : Type 0} (lib : Libraries Json D N) (txn : Context D)
    (mapping : EventToCoinType) where
  -- The coin type comes from the store that the event's GUID names; without one it panics.
  unfoldable pub from_parsed_event : Event → CoinEvent N → ℕ → Outcome (CoinActivity D N)
  unfolding amount_of
  from_parsed_event event coin_event index = do
    key ← unwrap event.key
    coin_type ←
        unwrap
          (lookup (standardize_address key.account_address, as_i64 key.creation_number) mapping)
    done (record {
      transaction_version = txn.transaction_version;
      event_account_address = standardize_address key.account_address;
      event_creation_number = as_i64 key.creation_number;
      event_sequence_number = as_i64 event.sequence_number;
      owner_address = standardize_address key.account_address;
      coin_type = coin_type;
      amount = amount_of coin_event;
      activity_type = event.type_str;
      is_gas_fee = false;
      is_transaction_success = true;
      entry_function_id_str = txn.entry_function_id_str;
      block_height = txn.block_height;
      transaction_timestamp = txn.transaction_timestamp;
      event_index = some (pos index);
      gas_fee_payer_address = none;
      storage_refund_amount = lib.from_u64 0;
    })

  abbrev pub activity : Event → ℕ → Option (CoinEvent N) → Outcome (List (CoinActivity D N))
  activity event index none = done []
  activity event index (some coin_event) = do
    row ← from_parsed_event event coin_event index
    done (row ∷ [])

  -- The loop over the events, from `index` on.
  unfoldable pub activities_from : ℕ → List Event → Outcome (List (CoinActivity D N))
  unfolding from_event from_parsed_event
  activities_from index [] = done []
  activities_from index (event ∷ events) = do
    parsed ← from_event lib event.type_str event.data_json
    row ← activity event index parsed
    rows ← activities_from (index + 1) events
    done (row ++ rows)
