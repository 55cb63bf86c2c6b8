-- ===== src/Coin/Transaction.antt =====
-- `from_transaction` and `get_gas_event` of rust/processor/src/models/coin_models/coin_activities.rs.
use aptos_indexer_processors.Prelude.{
  ℕ, ◌*◌, Option, none, some, Outcome, done, ◌>>=◌, unwrap, List, true, u64, Text,
}
use aptos_indexer_processors.Prelude.Int.{ℤ}
use aptos_indexer_processors.Protos.{
  Event, UserTransactionRequest, TxnData, block_metadata, genesis, state_checkpoint, validator,
  user, TransactionInfo, Transaction,
}
use aptos_indexer_processors.GrpcStream.Response.{as_i64}
use aptos_indexer_processors.Util.Address.{standardize_address}
use aptos_indexer_processors.Util.Payload.{get_entry_function_from_user_request}
use aptos_indexer_processors.Signatures.User.{get_fee_payer_address}
use aptos_indexer_processors.Coin.Resources.{Libraries}
use aptos_indexer_processors.Coin.Rows.{aptos_coin_type_str}
use aptos_indexer_processors.Coin.Activities.{
  CoinActivity, nothing_collected, TransactionCoins, no_coins, collect_changes, activities_from,
  gas_fee_event, burn_gas_event_creation_num, burn_gas_event_index,
}

-- The events and the request of a genesis or a user transaction; others give no rows.
unfoldable pub events_of : Option TxnData → Option (List Event × Option UserTransactionRequest)
events_of none = none
events_of (some (genesis events)) = some (events, none)
events_of (some (user inner)) = some (inner.events, inner.request)
events_of (some (block_metadata _)) = none
events_of (some state_checkpoint) = none
events_of (some validator) = none

unfoldable pub entry_function_of_request : Option UserTransactionRequest → Outcome (Option Text)
unfolding get_entry_function_from_user_request
entry_function_of_request none = done none
entry_function_of_request (some request) = get_entry_function_from_user_request request

module _ {Json D N : Type 0} (lib : Libraries Json D N) where
  unfoldable pub coins_of :
      Transaction → List Event × Option UserTransactionRequest → Outcome (TransactionCoins D N)
  unfolding entry_function_of_request collect_changes activities_from
  coins_of transaction (events, request) = do
    transaction_info ← unwrap transaction.info
    timestamp ← unwrap transaction.timestamp
    at ← unwrap (lib.from_timestamp_opt timestamp.seconds 0)
    entry_function_id_str ← entry_function_of_request request
    collected ←
        collect_changes lib (as_i64 transaction.version) (as_i64 transaction.epoch) at
          transaction_info.changes nothing_collected
    coin_activities ←
        activities_from lib
          (record {
            transaction_version = as_i64 transaction.version;
            block_height = as_i64 transaction.block_height;
            entry_function_id_str = entry_function_id_str;
            transaction_timestamp = at;
          })
          collected.event_to_coin_type 0 events
    done (record {
      coin_activities = coin_activities;
      coin_balances = collected.coin_balances;
      coin_infos = collected.coin_infos;
      current_coin_balances = collected.current_coin_balances;
      coin_supply = collected.coin_supply;
    })

  unfoldable pub from_transaction : Transaction → Outcome (TransactionCoins D N)
  unfolding events_of coins_of
  from_transaction transaction = elim (events_of transaction.txn_data) [
    | none ↦ done no_coins
    | some found ↦ coins_of transaction found
  ]

  -- `FeeStatement` by its refund. The product of two `u64` values wraps around.
  unfoldable pub get_gas_event :
      TransactionInfo
      → UserTransactionRequest
      → Option Text
      → ℤ
      → D
      → ℤ
      → Option ℕ
      → Outcome (CoinActivity D N)
  unfolding get_fee_payer_address
  get_gas_event txn_info request entry_function_id_str version at height fee_statement = do
    signature ← unwrap request.signature
    gas_fee_payer_address ← get_fee_payer_address signature
    done (record {
      transaction_version = version;
      event_account_address = standardize_address request.sender;
      event_creation_number = burn_gas_event_creation_num;
      event_sequence_number = as_i64 request.sequence_number;
      owner_address = standardize_address request.sender;
      coin_type = aptos_coin_type_str;
      amount = lib.from_u64 (u64 (txn_info.gas_used * request.gas_unit_price));
      activity_type = gas_fee_event;
      is_gas_fee = true;
      is_transaction_success = txn_info.success;
      entry_function_id_str = entry_function_id_str;
      block_height = height;
      transaction_timestamp = at;
      event_index = some burn_gas_event_index;
      gas_fee_payer_address = gas_fee_payer_address;
      storage_refund_amount = elim fee_statement [
        | none ↦ lib.from_u64 0
        | some refund ↦ lib.from_u64 refund
      ];
    })
