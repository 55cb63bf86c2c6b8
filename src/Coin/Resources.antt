-- ===== src/Coin/Resources.antt =====
-- The Move resources and events of coins: rust/processor/src/models/coin_models/coin_utils.rs, with the type
-- of a resource from rust/processor/src/models/default_models/move_resources.rs. `serde_json`, the regular
-- expression, the hash, `bigdecimal` and `chrono` are parameters. Where the source returns an error, its
-- caller unwraps it: both are a panic here.
use aptos_indexer_processors.Prelude.{
  ℕ, Option, none, some, Outcome, done, panic, ◌>>=◌, unwrap, List, ◌++◌, nth, Bool, ◌==◌, ◌||◌,
  text_eq, length, ltb, if◌then◌else◌, Text, bytes,
}
use aptos_indexer_processors.Prelude.Int.{ℤ}
use aptos_indexer_processors.Protos.{
  WriteResource, MoveType, Content, struct_content, other_content,
}
use aptos_indexer_processors.Util.Address.{standardize_address}
use aptos_indexer_processors.Util.Truncate.{truncate_str}

abbrev pub coin_addr : Text
coin_addr = bytes "0x0000000000000000000000000000000000000000000000000000000000000001"

abbrev pub coin_type_hash_length : ℕ
coin_type_hash_length = 5000

abbrev pub coin_type_max : ℕ
coin_type_max = 1000

pub record AggregatorResource : Type 0 where
  pub handle : Text
  pub key : Text

-- `integer` keeps the supply of a coin without an aggregator.
pub record OptionalAggregatorResource (N : Type 0) : Type 0 where
  pub aggregator : List AggregatorResource
  pub integer : List N

pub record CoinInfoResource (N : Type 0) : Type 0 where
  pub name : Text
  pub symbol : Text
  pub decimals : ℤ
  pub supply : List (OptionalAggregatorResource N)

pub record EventGuidResource : Type 0 where
  pub addr : Text
  pub creation_num : ℤ

pub record CoinStoreResource (N : Type 0) : Type 0 where
  pub coin : N
  pub deposit_events : EventGuidResource
  pub withdraw_events : EventGuidResource
  pub frozen : Bool

pub data CoinResource (N : Type 0) : Type 0 where
  coin_info_resource : CoinInfoResource N → CoinResource N
  coin_store_resource : CoinStoreResource N → CoinResource N

-- The amount of the event.
pub data CoinEvent (N : Type 0) : Type 0 where
  withdraw_coin_event : N → CoinEvent N
  deposit_coin_event : N → CoinEvent N

-- `serde_json::from_str`, `from_value` into the two resources, `from_str` into the two events, `as_str`;
-- group 2 of the regular expression `(<(.*)>)`; the text of the SHA-256; `BigDecimal` from a text, from a
-- number, and zero; and the checked `from_timestamp_opt`.
pub record Libraries (Json D N : Type 0) : Type 0 where
  pub from_str : Text → Option Json
  pub coin_info_from_value : Json → Option (CoinInfoResource N)
  pub coin_store_from_value : Json → Option (CoinStoreResource N)
  pub withdraw_event_from_str : Text → Option N
  pub deposit_event_from_str : Text → Option N
  pub as_str : Json → Option Text
  pub captures : Text → Option Text
  pub hash_str : Text → Text
  pub parse_decimal : Text → Option N
  pub from_u64 : ℕ → N
  pub from_timestamp_opt : ℤ → ℕ → Option D

unfoldable pub get_aggregator_metadata :
    {N : Type 0} → CoinInfoResource N → Option AggregatorResource
get_aggregator_metadata r = elim (nth 0 r.supply) [
  | none ↦ none
  | some inner ↦ nth 0 inner.aggregator
]

unfoldable pub get_name_trunc : {N : Type 0} → CoinInfoResource N → Outcome Text
get_name_trunc r = truncate_str r.name 32

unfoldable pub get_symbol_trunc : {N : Type 0} → CoinInfoResource N → Outcome Text
get_symbol_trunc r = truncate_str r.symbol 10

-- `EventGuidResource::get_standardized`
unfoldable pub get_standardized : EventGuidResource → EventGuidResource
get_standardized guid = record {
  addr = standardize_address guid.addr;
  creation_num = guid.creation_num;
}

pub record CoinInfoType : Type 0 where
  pub coin_type : Text
  pub creator_address : Text

-- `MoveResource::get_outer_type_from_resource`: the address is standardized when the tag is converted and
-- when it is read.
unfoldable pub get_outer_type_from_resource : WriteResource → Outcome Text
get_outer_type_from_resource w = do
  struct_tag ← unwrap w.type_
  done (
      standardize_address (standardize_address struct_tag.address)
      ++ bytes "::"
      ++ struct_tag.name_of_module
      ++ bytes "::"
      ++ struct_tag.name)

abbrev pub coin_info_type : Text
coin_info_type = coin_addr ++ bytes "::coin::CoinInfo"

abbrev pub coin_store_type : Text
coin_store_type = coin_addr ++ bytes "::coin::CoinStore"

unfoldable pub is_resource_supported : Text → Bool
is_resource_supported data_type = data_type == coin_info_type || data_type == coin_store_type

unfoldable pub get_creator_address : CoinInfoType → Text
get_creator_address t = standardize_address t.creator_address

unfoldable pub get_coin_type_trunc : CoinInfoType → Outcome Text
get_coin_type_trunc t = truncate_str t.coin_type coin_type_hash_length

unfoldable pub get_coin_type_below_max : CoinInfoType → Option Text
get_coin_type_below_max t =
    if ltb coin_type_max (length t.coin_type) then none else some t.coin_type

unfoldable pub struct_address : Content → Outcome Text
struct_address (struct_content address) = done address
struct_address other_content = panic

module _ {Json D N : Type 0} (lib : Libraries Json D N) where
  -- The creator is the address of the type parameter, the coin type what stands between the brackets.
  unfoldable pub from_move_type : MoveType → Text → Outcome CoinInfoType
  unfolding struct_address
  from_move_type move_type move_type_str = do
    content ← unwrap move_type.content
    address ← struct_address content
    coin_type ← unwrap (lib.captures move_type_str)
    done (record { coin_type = coin_type; creator_address = address })

  unfoldable pub to_hash : CoinInfoType → Text
  to_hash t = lib.hash_str t.coin_type

  unfoldable pub get_storage_id : Text → Text → Text
  get_storage_id coin_type owner_address =
      bytes "0x" ++ lib.hash_str (owner_address ++ bytes "::" ++ coin_type)

  abbrev read_info : Json → Outcome (CoinResource N)
  read_info value = do
    inner ← unwrap (lib.coin_info_from_value value)
    done (coin_info_resource inner)

  abbrev read_store : Json → Outcome (CoinResource N)
  read_store value = do
    inner ← unwrap (lib.coin_store_from_value value)
    done (coin_store_resource inner)

  unfoldable pub from_resource : Text → Json → Outcome (CoinResource N)
  from_resource data_type value =
      if data_type == coin_info_type
      then read_info value
      else (if data_type == coin_store_type then read_store value else panic)

  abbrev read_resource : Text → Text → Outcome (Option (CoinResource N))
  read_resource type_str text = do
    value ← unwrap (lib.from_str text)
    resource ← from_resource type_str value
    done (some resource)

  -- Nothing for a resource of another type; its data must be JSON of the right shape otherwise.
  unfoldable pub from_write_resource : WriteResource → Outcome (Option (CoinResource N))
  unfolding get_outer_type_from_resource is_resource_supported from_resource
  from_write_resource w = do
    type_str ← get_outer_type_from_resource w
    if is_resource_supported type_str then read_resource type_str w.data_json else done none

  unfoldable pub from_event : Text → Text → Outcome (Option (CoinEvent N))
  from_event data_type text =
      if data_type == bytes "0x1::coin::WithdrawEvent"
      then (do
        amount ← unwrap (lib.withdraw_event_from_str text)
        done (some (withdraw_coin_event amount)))
      else (if data_type == bytes "0x1::coin::DepositEvent"
          then (do
            amount ← unwrap (lib.deposit_event_from_str text)
            done (some (deposit_coin_event amount)))
          else done none)
