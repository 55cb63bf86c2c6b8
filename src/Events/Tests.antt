-- ===== src/Events/Tests.antt =====
-- A transaction that changes a multisig account and has an event of its own, and the theorems there.
use aptos_indexer_processors.Prelude.{
  not, ◌&&◌, ◌≡◌, refl, inl, Option, none, some, done, List, [], ◌∷◌, ◌++◌, All, Has, true, Text,
  bytes,
}
use aptos_indexer_processors.Prelude.Int.{ℤ, pos}
use aptos_indexer_processors.Prelude.Chunks.{retain}
use aptos_indexer_processors.Protos.{
  Event, UserTransactionRequest, WriteResource, TransactionInfo, Transaction, TxnData, Payload,
  Change,
}
use aptos_indexer_processors.GrpcStream.Response.{as_i64}
use aptos_indexer_processors.Util.Truncate.{truncate_str}
use aptos_indexer_processors.Util.Address.{standardize_address, prefixed, pad, strip_0x}
use aptos_indexer_processors.Events.Model.{
  EventModel, Libraries, event_row, from_event, from_events, split, split_from, before_angle,
  timestamp_to_naive, call_of,
}
use aptos_indexer_processors.Events.Collect.{
  filtered_events, multisig_account, contains, is_wanted, multisig_resources, multisig_event,
  push_multisig, push_user,
}
use aptos_indexer_processors.Events.Required.{is_wanted_unrequired}
use aptos_indexer_processors.Events.Keys.{Rising, OfVersion, plain_rows}
use aptos_indexer_processors.Events.Collision.{SameKey, multisig_row_shares_key}

-- JSON as its text, and a clock that keeps the seconds.
abbrev texts : Libraries Text ℤ
texts = record {
  from_str = λ t. some t;
  to_value = λ p. none;
  null_json = [];
  from_timestamp_opt = λ s n. some s;
}

abbrev request : UserTransactionRequest
request = record {
  sender = bytes "0x7";
  sequence_number = 3;
  gas_unit_price = 100;
  signature = none;
  payload = some (record { payload = some (Payload.script_payload []) });
}

abbrev deposit : Event
deposit = record {
  key = some (record { account_address = bytes "0x7"; creation_number = 2 });
  sequence_number = 5;
  type_str = bytes "0x1::coin::DepositEvent<u8>";
  data_json = bytes "{}";
}

abbrev account : WriteResource
account = record {
  address = bytes "0x5";
  state_key_hash = [];
  type_ = none;
  type_str = multisig_account;
  data_json = bytes "{}";
}

abbrev info_of : List (Option Change) → TransactionInfo
info_of changes = record { gas_used = 3; success = true; changes = changes }

abbrev txn : List (Option Change) → Transaction
txn changes = record {
  version = 90;
  epoch = 1;
  block_height = 8;
  timestamp = none;
  info = some (info_of changes);
  transaction_type = 4;
  txn_data = some (TxnData.user (record { request = some request; events = deposit ∷ [] }));
}

abbrev changes : List (Option Change)
changes =
    some (Change.write_resource account)
    ∷ some (Change.delete_module (record { address = []; state_key_hash = []; module_name = none }))
    ∷ []

abbrev row : ℤ → ℤ → Text → Text → Text → Text → EventModel Text ℤ
row sequence creation type_ module_ name data_ = record {
  sequence_number = sequence;
  creation_number = creation;
  account_address = standardize_address (bytes "0x7");
  transaction_version = pos 90;
  transaction_block_height = pos 8;
  type_ = type_;
  data_json = data_;
  event_index = 0;
  indexed_type = type_;
  from_ = bytes "0x7";
  entry_function_payload_json = [];
  entry_function_id_str = [];
  module_address = bytes "0x1";
  module_name = module_;
  event_name = name;
  inserted_at = pos 0;
}

abbrev deposit_row : EventModel Text ℤ
deposit_row =
    row (pos 5) (pos 2) (bytes "0x1::coin::DepositEvent<u8>") (bytes "coin") (bytes "DepositEvent")
      (bytes "{}")

abbrev account_row : EventModel Text ℤ
account_row =
    row (pos 3) (pos 3) multisig_account (bytes "multisig_account") (bytes "MultisigAccount")
      (bytes "{}")

own_rows :
    from_events texts (deposit ∷ []) (pos 90) (pos 8) (some request) none 0
    ≡ done (deposit_row ∷ [])
unfolding from_events from_event event_row call_of split split_from before_angle timestamp_to_naive
    truncate_str
own_rows = refl

resources_found : multisig_resources changes ≡ done (account ∷ [])
unfolding multisig_resources
resources_found = refl

deposit_wanted : is_wanted deposit_row ≡ true
unfolding is_wanted contains
deposit_wanted = refl

rows_both :
    push_user texts (txn changes) request (deposit ∷ []) [] ≡ done (account_row ∷ deposit_row ∷ [])
unfolding push_user push_multisig multisig_event multisig_resources from_events from_event event_row
    call_of split split_from before_angle timestamp_to_naive truncate_str is_wanted contains retain
    standardize_address prefixed pad strip_0x
rows_both = refl

rows_plain : push_user texts (txn []) request (deposit ∷ []) [] ≡ done (deposit_row ∷ [])
unfolding push_user push_multisig multisig_resources from_events from_event event_row call_of split
    split_from before_angle timestamp_to_naive truncate_str is_wanted contains retain
rows_plain = refl

no_resources : multisig_resources [] ≡ done []
unfolding multisig_resources
no_resources = refl

abbrev no_rows : List (EventModel Text ℤ)
no_rows = []

plain_rows_example :
    (more : List (EventModel Text ℤ)) × (deposit_row ∷ [] ≡ no_rows ++ more)
    × Rising 0 more
    × All (λ r. OfVersion (as_i64 90) r × (is_wanted r ≡ true)) more
plain_rows_example =
    plain_rows texts (txn []) request (deposit ∷ []) no_rows (deposit_row ∷ []) (info_of []) refl
      no_resources rows_plain

multisig_row_shares_key_example :
    (m : EventModel Text ℤ) × (more : List (EventModel Text ℤ)) × (account_row ∷ deposit_row ∷ []
      ≡ no_rows ++ m ∷ more)
    × Has deposit_row more
    × SameKey texts m deposit_row
multisig_row_shares_key_example =
    multisig_row_shares_key texts (txn changes) request (deposit ∷ []) no_rows
      (account_row ∷ deposit_row ∷ []) (deposit_row ∷ []) (info_of changes) account [] deposit_row
      refl resources_found own_rows (inl refl) refl deposit_wanted rows_both

is_wanted_unrequired_example : is_wanted deposit_row ≡ (
    not (contains filtered_events deposit_row.type_)
    && not (contains filtered_events deposit_row.entry_function_id_str))
is_wanted_unrequired_example = is_wanted_unrequired deposit_row
