-- ===== src/Coin/Rows.antt =====
-- The rows about coins: rust/processor/src/models/coin_models/coin_balances.rs, coin_infos.rs and
-- coin_supply.rs, with `TableItem::from_write_table_item` of
-- rust/processor/src/models/default_models/move_tables.rs as far as the supply reads it.
use aptos_indexer_processors.Prelude.{
  Option, none, some, Outcome, done, ◌>>=◌, unwrap, nth, not, ◌==◌, ◌&&◌, text_eq, if◌then◌else◌,
  Text, bytes, [], pair_eq,
}
use aptos_indexer_processors.Prelude.Int.{ℤ, int_eq}
use aptos_indexer_processors.Prelude.Dict.{Dict, insert}
use aptos_indexer_processors.Protos.{WriteResource, WriteTableItem, WriteTableData}
use aptos_indexer_processors.Util.Address.{standardize_address}
use aptos_indexer_processors.Coin.Resources.{
  Libraries, CoinResource, coin_info_resource, coin_store_resource, CoinInfoResource,
  CoinStoreResource, EventGuidResource, CoinInfoType, get_aggregator_metadata, get_name_trunc,
  get_symbol_trunc, get_standardized, get_creator_address, get_coin_type_trunc, from_move_type,
  to_hash, from_write_resource,
}

abbrev pub aptos_coin_type_str : Text
aptos_coin_type_str = bytes "0x1::aptos_coin::AptosCoin"

abbrev pub aptos_coin_supply_table_handle : Text
aptos_coin_supply_table_handle =
    bytes "0x1b854694ae746cdbd8d44186ca4929b2b337df21d1c74633be19b2710552fdca"

abbrev pub aptos_coin_supply_table_key : Text
aptos_coin_supply_table_key =
    bytes "0x619dc29a0aac8fa146714058e8dd6d2d0f3bdf5f6331907bf91f3acd81e6935"

pub record CoinBalance (D N : Type 0) : Type 0 where
  pub transaction_version : ℤ
  pub owner_address : Text
  pub coin_type_hash : Text
  pub coin_type : Text
  pub amount : N
  pub transaction_timestamp : D

pub record CurrentCoinBalance (D N : Type 0) : Type 0 where
  pub owner_address : Text
  pub coin_type_hash : Text
  pub coin_type : Text
  pub amount : N
  pub last_transaction_version : ℤ
  pub last_transaction_timestamp : D

pub record CoinInfo (D : Type 0) : Type 0 where
  pub coin_type_hash : Text
  pub coin_type : Text
  pub transaction_version_created : ℤ
  pub creator_address : Text
  pub name : Text
  pub symbol : Text
  pub decimals : ℤ
  pub transaction_created_timestamp : D
  pub supply_aggregator_table_handle : Option Text
  pub supply_aggregator_table_key : Option Text

pub record CoinSupply (D N : Type 0) : Type 0 where
  pub transaction_version : ℤ
  pub coin_type_hash : Text
  pub coin_type : Text
  pub supply : N
  pub transaction_timestamp : D
  pub transaction_epoch : ℤ

-- The key of an event, a GUID, as a pair.
abbrev pub EventToCoinType : Type 0
EventToCoinType = Dict (Text × ℤ) Text

abbrev pub guid_key : EventGuidResource → Text × ℤ
guid_key guid = (guid.addr, guid.creation_num)

-- The coin type of the store's two event streams.
unfoldable pub event_to_coin_mapping : {N : Type 0} → CoinStoreResource N → Text → EventToCoinType
unfolding insert get_standardized
event_to_coin_mapping inner coin_type =
    insert (guid_key (get_standardized inner.deposit_events)) coin_type
      (insert (guid_key (get_standardized inner.withdraw_events)) coin_type [])

module _ {Json D N : Type 0} (lib : Libraries Json D N) where
  -- `generic_type_params[0]` of the resource's type, with what its text says.
  unfoldable pub coin_info_type_of : WriteResource → Outcome CoinInfoType
  unfolding from_move_type
  coin_info_type_of w = do
    struct_tag ← unwrap w.type_
    move_type ← unwrap (nth 0 struct_tag.generic_type_params)
    from_move_type lib move_type w.type_str

  -- The row, the current row and the mapping for a coin store.
  unfoldable pub balance_of :
      WriteResource
      → ℤ
      → D
      → CoinStoreResource N
      → Outcome (CoinBalance D N × CurrentCoinBalance D N × EventToCoinType)
  unfolding coin_info_type_of to_hash get_coin_type_trunc event_to_coin_mapping
  balance_of w version at inner = do
    info_type ← coin_info_type_of w
    coin_type ← get_coin_type_trunc info_type
    done (
      record {
        transaction_version = version;
        owner_address = standardize_address w.address;
        coin_type_hash = to_hash lib info_type;
        coin_type = coin_type;
        amount = inner.coin;
        transaction_timestamp = at;
      },
      record {
        owner_address = standardize_address w.address;
        coin_type_hash = to_hash lib info_type;
        coin_type = coin_type;
        amount = inner.coin;
        last_transaction_version = version;
        last_transaction_timestamp = at;
      },
      event_to_coin_mapping inner coin_type,
    )

  abbrev pub balance_of_resource :
      WriteResource
      → ℤ
      → D
      → Option (CoinResource N)
      → Outcome (Option (CoinBalance D N × CurrentCoinBalance D N × EventToCoinType))
  balance_of_resource w version at (some (coin_store_resource inner)) = do
    row ← balance_of w version at inner
    done (some row)
  balance_of_resource w version at (some (coin_info_resource _)) = done none
  balance_of_resource w version at none = done none

  -- `CoinBalance::from_write_resource`
  unfoldable pub balance_from_write_resource :
      WriteResource
      → ℤ
      → D
      → Outcome (Option (CoinBalance D N × CurrentCoinBalance D N × EventToCoinType))
  unfolding balance_of
  balance_from_write_resource w version at = do
    resource ← from_write_resource lib w
    balance_of_resource w version at resource

  unfoldable pub info_of : WriteResource → ℤ → D → CoinInfoResource N → Outcome (CoinInfo D)
  unfolding coin_info_type_of to_hash get_coin_type_trunc get_creator_address get_name_trunc
      get_symbol_trunc get_aggregator_metadata
  info_of w version at inner = do
    info_type ← coin_info_type_of w
    coin_type ← get_coin_type_trunc info_type
    name ← get_name_trunc inner
    symbol ← get_symbol_trunc inner
    done (record {
      coin_type_hash = to_hash lib info_type;
      coin_type = coin_type;
      transaction_version_created = version;
      creator_address = get_creator_address info_type;
      name = name;
      symbol = symbol;
      decimals = inner.decimals;
      transaction_created_timestamp = at;
      supply_aggregator_table_handle = elim (get_aggregator_metadata inner) [
        | none ↦ none
        | some agg ↦ some agg.handle
      ];
      supply_aggregator_table_key = elim (get_aggregator_metadata inner) [
        | none ↦ none
        | some agg ↦ some agg.key
      ];
    })

  abbrev pub info_of_resource :
      WriteResource → ℤ → D → Option (CoinResource N) → Outcome (Option (CoinInfo D))
  info_of_resource w version at (some (coin_info_resource inner)) = do
    row ← info_of w version at inner
    done (some row)
  info_of_resource w version at (some (coin_store_resource _)) = done none
  info_of_resource w version at none = done none

  -- `CoinInfo::from_write_resource`
  unfoldable pub info_from_write_resource : WriteResource → ℤ → D → Outcome (Option (CoinInfo D))
  unfolding info_of
  info_from_write_resource w version at = do
    resource ← from_write_resource lib w
    info_of_resource w version at resource

  -- The row once key and value are texts.
  unfoldable pub supply_of : ℤ → D → ℤ → Text → Json → Outcome (Option (CoinSupply D N))
  supply_of version at epoch table_key decoded_value =
      if not (table_key == aptos_coin_supply_table_key) then done none else (do
        value ← unwrap (lib.as_str decoded_value)
        supply ← unwrap (lib.parse_decimal value)
        done (
            some (record {
              transaction_version = version;
              coin_type_hash = lib.hash_str aptos_coin_type_str;
              coin_type = aptos_coin_type_str;
              supply = supply;
              transaction_timestamp = at;
              transaction_epoch = epoch;
            })))

  -- Key and value of the item are decoded together; either that is no JSON panics.
  unfoldable pub supply_of_item : WriteTableData → ℤ → D → ℤ → Outcome (Option (CoinSupply D N))
  unfolding supply_of
  supply_of_item item version at epoch = do
    decoded_key ← unwrap (lib.from_str item.key)
    decoded_value ← unwrap (lib.from_str item.value)
    table_key ← unwrap (lib.as_str decoded_key)
    supply_of version at epoch table_key decoded_value

  unfoldable pub from_write_table_item :
      WriteTableItem → ℤ → D → ℤ → Outcome (Option (CoinSupply D N))
  unfolding supply_of_item
  from_write_table_item w version at epoch = elim w.table_data [
    | none ↦ done none
    | some item ↦
        if not (item.key_type == bytes "address" && item.value_type == bytes "u128")
        then done none
        else (if not (w.handle == aptos_coin_supply_table_handle)
            then done none
            else supply_of_item item version at epoch)
  ]
