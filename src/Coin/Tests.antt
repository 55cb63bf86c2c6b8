-- ===== src/Coin/Tests.antt =====
-- Coins of concrete transactions, for the theorems of Coin.
use aptos_indexer_processors.Prelude.{
  ℕ, ◌≡◌, ◌↔◌, refl, Option, none, some, Outcome, done, panic, List, [], ◌∷◌, map, nth, true, false,
  text_eq, pair_eq, Text, bytes, All, Has, length,
}
use aptos_indexer_processors.Prelude.Int.{ℤ, pos, int_eq}
use aptos_indexer_processors.Prelude.Dict.{lookup, insert, extend, or_insert, values}
use aptos_indexer_processors.Prelude.Sorted.{
  text_order, pair_order, insert_sorted, sort_by_key, Sorted,
}
use aptos_indexer_processors.Protos.{
  Event, Transaction, genesis, Change, write_resource, WriteResource, struct_content,
}
use aptos_indexer_processors.Util.Address.{strip_0x, digits, pad, prefixed, standardize_address}
use aptos_indexer_processors.Util.Truncate.{is_boundary, truncate_str}
use aptos_indexer_processors.Coin.Resources.{
  Libraries, CoinEvent, get_outer_type_from_resource, is_resource_supported, get_standardized,
  from_resource, from_write_resource, from_move_type, struct_address, to_hash, get_coin_type_trunc,
  get_creator_address, get_name_trunc, get_symbol_trunc, get_aggregator_metadata, from_event,
}
use aptos_indexer_processors.Coin.Rows.{
  CurrentCoinBalance, CoinInfo, event_to_coin_mapping, coin_info_type_of, balance_of,
  balance_from_write_resource, info_of, info_from_write_resource,
}
use aptos_indexer_processors.Coin.Activities.{
  TransactionCoins, no_coins, add_info, add_balance, amount_of, collect_change, collect_changes,
  from_parsed_event, activities_from,
}
use aptos_indexer_processors.Coin.Transaction.{
  events_of, entry_function_of_request, coins_of, from_transaction,
}
use aptos_indexer_processors.Coin.Batch.{
  CoinRows, keep_first, add_transaction, add_transactions, info_key, balance_key, sorted_rows,
  batch_rows,
}
use aptos_indexer_processors.Coin.Latest.{latest}
use aptos_indexer_processors.Coin.Current.{batch_rows-latest}
use aptos_indexer_processors.Coin.First.{first_info, batch_rows-first}
use aptos_indexer_processors.Coin.Origin.{FromBalance, ActivityOf, from_transaction-origin}

-- The amount of a resource or an event is the length of its text; a coin is named by the text of its type.
abbrev texts : Libraries Text ℤ ℕ
texts = record {
  from_str = λ t. some t;
  coin_info_from_value = λ t. some (record { name = t; symbol = t; decimals = pos 8; supply = [] });
  coin_store_from_value = λ t. some (record {
    coin = length t;
    deposit_events = record { addr = bytes "0x7"; creation_num = pos 2 };
    withdraw_events = record { addr = bytes "0x7"; creation_num = pos 3 };
    frozen = false;
  });
  withdraw_event_from_str = λ t. some (length t);
  deposit_event_from_str = λ t. some (length t);
  as_str = λ t. some t;
  captures = λ t. some t;
  hash_str = λ t. t;
  parse_decimal = λ t. some (length t);
  from_u64 = λ n. n;
  from_timestamp_opt = λ s n. some s;
}

abbrev resource : Text → Text → Text → WriteResource
resource name type_str text = record {
  address = bytes "0x7";
  state_key_hash = [];
  type_ = some (record {
    address = bytes "0x1";
    name_of_module = bytes "coin";
    name = name;
    generic_type_params = record { content = some (struct_content (bytes "0x9")) } ∷ [];
  });
  type_str = type_str;
  data_json = text;
}

abbrev store : Text → Text → Option Change
store type_str text = some (write_resource (resource (bytes "CoinStore") type_str text))

abbrev info : Text → Text → Option Change
info type_str text = some (write_resource (resource (bytes "CoinInfo") type_str text))

abbrev deposit : Event
deposit = record {
  key = some (record { account_address = bytes "0x7"; creation_number = 2 });
  sequence_number = 0;
  type_str = bytes "0x1::coin::DepositEvent";
  data_json = bytes "abc";
}

abbrev txn : ℕ → List (Option Change) → List Event → Transaction
txn version changes events = record {
  version = version;
  epoch = 1;
  block_height = 1;
  timestamp = some (record { seconds = pos 100; nanos = pos 0 });
  info = some (record { gas_used = 1; success = true; changes = changes });
  transaction_type = 0;
  txn_data = some (genesis events);
}

abbrev first_txn : Transaction
first_txn =
    txn 4 (info (bytes "B") (bytes "b") ∷ store (bytes "B") (bytes "12") ∷ []) (deposit ∷ [])

abbrev second_txn : Transaction
second_txn =
    txn 5
      (info (bytes "B") (bytes "c")
        ∷ store (bytes "B") (bytes "1")
        ∷ store (bytes "A") (bytes "123")
        ∷ [])
      []

abbrev two_txns : List Transaction
two_txns = first_txn ∷ second_txn ∷ []

abbrev coins_or_none : Outcome (TransactionCoins ℤ ℕ) → TransactionCoins ℤ ℕ
coins_or_none panic = no_coins
coins_or_none (done coins) = coins

abbrev rows_or_none : Outcome (CoinRows ℤ ℕ) → CoinRows ℤ ℕ
rows_or_none panic = record {
  coin_activities = [];
  coin_infos = [];
  coin_balances = [];
  current_coin_balances = [];
  coin_supply = [];
}
rows_or_none (done rows) = rows

first_coins : TransactionCoins ℤ ℕ
first_coins = coins_or_none (from_transaction texts first_txn)

two_rows : CoinRows ℤ ℕ
two_rows = rows_or_none (batch_rows texts two_txns)

first_coins_test : from_transaction texts first_txn ≡ done first_coins
unfolding first_coins from_transaction events_of coins_of entry_function_of_request collect_changes
    collect_change info_from_write_resource info_of balance_from_write_resource balance_of
    coin_info_type_of from_move_type struct_address to_hash get_coin_type_trunc get_creator_address
    get_name_trunc get_symbol_trunc get_aggregator_metadata from_write_resource from_resource
    is_resource_supported get_outer_type_from_resource get_standardized event_to_coin_mapping
    truncate_str is_boundary standardize_address strip_0x digits pad prefixed add_info add_balance
    activities_from from_event from_parsed_event amount_of lookup insert extend
first_coins_test = refl

two_rows_test : batch_rows texts two_txns ≡ done two_rows
unfolding two_rows batch_rows add_transactions add_transaction sorted_rows keep_first or_insert
    values sort_by_key insert_sorted from_transaction events_of coins_of entry_function_of_request
    collect_changes collect_change info_from_write_resource info_of balance_from_write_resource
    balance_of coin_info_type_of from_move_type struct_address to_hash get_coin_type_trunc
    get_creator_address get_name_trunc get_symbol_trunc get_aggregator_metadata from_write_resource
    from_resource is_resource_supported get_outer_type_from_resource get_standardized
    event_to_coin_mapping truncate_str is_boundary standardize_address strip_0x digits pad prefixed
    add_info add_balance activities_from from_event from_parsed_event amount_of lookup insert extend
two_rows_test = refl

-- Coin A before coin B; the last balance of B, and its first info.
two_rows_values :
    (map {B = Text × ℕ} (λ b. (b.coin_type, b.amount)) two_rows.current_coin_balances
      ≡ ((bytes "A", 3) ∷ (bytes "B", 1) ∷ []))
    × (map {B = Text × Text} (λ i. (i.coin_type, i.name)) two_rows.coin_infos
        ≡ ((bytes "B", bytes "b") ∷ []))
    × (map {B = Text × ℕ} (λ a. (a.coin_type, a.amount)) two_rows.coin_activities
        ≡ ((bytes "B", 3) ∷ []))
unfolding two_rows batch_rows add_transactions add_transaction sorted_rows keep_first or_insert
    values sort_by_key insert_sorted from_transaction events_of coins_of entry_function_of_request
    collect_changes collect_change info_from_write_resource info_of balance_from_write_resource
    balance_of coin_info_type_of from_move_type struct_address to_hash get_coin_type_trunc
    get_creator_address get_name_trunc get_symbol_trunc get_aggregator_metadata from_write_resource
    from_resource is_resource_supported get_outer_type_from_resource get_standardized
    event_to_coin_mapping truncate_str is_boundary standardize_address strip_0x digits pad prefixed
    add_info add_balance activities_from from_event from_parsed_event amount_of lookup insert extend
two_rows_values = (refl, refl, refl)

batch_rows-latest_example :
    Sorted balance_key two_rows.current_coin_balances
    × ((row : CurrentCoinBalance ℤ ℕ)
        → Has row two_rows.current_coin_balances
          ↔ (latest (balance_key row) two_rows.coin_balances ≡ some row))
batch_rows-latest_example = batch_rows-latest texts two_txns two_rows two_rows_test

batch_rows-first_example :
    Sorted info_key two_rows.coin_infos
    × ((row : CoinInfo ℤ)
        → Has row two_rows.coin_infos ↔ (first_info texts (info_key row) two_txns ≡ some row))
batch_rows-first_example = batch_rows-first texts two_txns two_rows two_rows_test

first_events_test : events_of first_txn.txn_data ≡ some (deposit ∷ [], none)
unfolding events_of
first_events_test = refl

from_transaction-origin_example :
    All (FromBalance first_coins.coin_balances) first_coins.coin_activities
    × ((i : ℕ) (event : Event) (coin_event : CoinEvent ℕ)
        → nth i (deposit ∷ []) ≡ some event
        → from_event texts event.type_str event.data_json ≡ done (some coin_event)
        → ActivityOf first_coins.coin_activities i coin_event)
from_transaction-origin_example =
    from_transaction-origin texts first_txn (deposit ∷ []) none first_coins first_events_test
      first_coins_test
