-- ===== src/Util/Payload.antt =====
-- `get_entry_function_from_user_request` of rust/processor/src/utils/util.rs. The function of a multisig
-- payload is looked up and dropped, as in the source.
pub mod Recorded
use aptos_indexer_processors.Prelude.{
  ℕ, Option, none, some, Outcome, done, panic, ◌>>=◌, unwrap, Text,
}
use aptos_indexer_processors.Protos.{
  Payload, entry_function_payload, script_payload, write_set_payload, multisig_payload,
  UserTransactionRequest,
}
use aptos_indexer_processors.Util.Truncate.{truncate_str}

abbrev pub max_entry_function_length : ℕ
max_entry_function_length = 1000

unfoldable pub entry_function_of : Option Payload → Outcome (Option Text)
entry_function_of none = done none
entry_function_of (some (entry_function_payload p)) = do
  id ← truncate_str p.entry_function_id_str max_entry_function_length
  done (some id)
entry_function_of (some (script_payload _)) = done none
entry_function_of (some write_set_payload) = done none
entry_function_of (some (multisig_payload m)) = elim m.transaction_payload [
  | none ↦ done none
  | some payload ↦ do dropped ← unwrap payload.payload; done none
]

unfoldable pub get_entry_function_from_user_request : UserTransactionRequest → Outcome (Option Text)
unfolding entry_function_of
get_entry_function_from_user_request user_request = do
  payload ← unwrap user_request.payload
  entry_function_of payload.payload
