-- ===== src/TransactionFilter/Tests.antt =====
-- The filter on a transaction that calls a module, and its theorem at these values.
use aptos_indexer_processors.Prelude.{◌≡◌, ◌↔◌, refl, none, some, [], ◌∷◌, true, false, bytes}
use aptos_indexer_processors.Protos.{Transaction, TxnData, UserTransactionRequest, Payload}
use aptos_indexer_processors.TransactionFilter.{
  TransactionFilter, contains, function_address, payload_address, entry_module_address,
  passes_focus, passes_skip, include_request, include_data, include,
}
use aptos_indexer_processors.TransactionFilter.Spec.{Allowed, include_iff}

abbrev request : UserTransactionRequest
request = record {
  sender = bytes "0x7";
  sequence_number = 0;
  gas_unit_price = 100;
  signature = none;
  payload = some (record {
    payload = some (
        Payload.entry_function_payload (record {
          function = some (record {
            module_id = some (record { address = bytes "0x1"; name = bytes "coin" });
            name = bytes "transfer";
          });
          arguments = [];
          entry_function_id_str = bytes "0x1::coin::transfer";
        }));
  });
}

abbrev transfer : Transaction
transfer = record {
  version = 10;
  epoch = 1;
  block_height = 1;
  timestamp = none;
  info = none;
  transaction_type = 4;
  txn_data = some (TxnData.user (record { request = some request; events = [] }));
}

abbrev focused : TransactionFilter
focused = record {
  focus_contract_addresses = some (bytes "0x3" ∷ []);
  skip_sender_addresses = none;
  focus_user_transactions = true;
}

-- A call of 0x1 passes a filter only where 0x1 is in focus and its sender is not skipped.
include_cases :
    (include 4 focused transfer ≡ false)
    × (include 4 (record focused { focus_contract_addresses = some (bytes "0x1" ∷ []) }) transfer
        ≡ true)
    × (include 4
          (record focused {
            focus_contract_addresses = none;
            skip_sender_addresses = some (bytes "0x7" ∷ []);
          })
          transfer
        ≡ false)
    × (include 5 (record focused { focus_user_transactions = false }) transfer ≡ true)
unfolding include include_data include_request passes_focus passes_skip entry_module_address
    payload_address function_address contains
include_cases = (refl, refl, refl, refl)

include_iff_example : (include 4 focused transfer ≡ true) ↔ Allowed 4 focused transfer
include_iff_example = include_iff 4 focused transfer
