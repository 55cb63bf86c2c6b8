-- ===== src/TransactionFilter.antt =====
-- rust/processor/src/transaction_filter.rs. A set of addresses is a list; `user_type` is the number
-- that `aptos_protos` gives to `TransactionType::User`.
pub mod Spec
mod Tests
use aptos_indexer_processors.Prelude.{
  ℕ, Option, none, some, List, [], ◌∷◌, Bool, true, false, not, ◌&&◌, ◌||◌, Text, ◌==◌, nat_eq,
  text_eq, if◌then◌else◌,
}
use aptos_indexer_processors.Protos.{
  Transaction, TxnData, UserTransaction, UserTransactionRequest, TransactionPayload, Payload,
  EntryFunctionPayload, EntryFunctionId, MoveModuleId,
}

pub record TransactionFilter : Type 0 where
  pub focus_contract_addresses : Option (List Text)
  pub skip_sender_addresses : Option (List Text)
  pub focus_user_transactions : Bool

pub contains : List Text → Text → Bool
contains [] a = false
contains (x ∷ xs) a = x == a || contains xs a

-- The address of the module whose entry function is called, where every level of the payload is there.
pub function_address : Option EntryFunctionId → Option Text
function_address none = none
function_address (some function) = elim function.module_id [ none ↦ none | some m ↦ some m.address ]

pub payload_address : Option Payload → Option Text
unfolding function_address
payload_address (some (Payload.entry_function_payload efp)) = function_address efp.function
payload_address (some (Payload.script_payload _)) = none
payload_address (some Payload.write_set_payload) = none
payload_address (some (Payload.multisig_payload _)) = none
payload_address none = none

pub entry_module_address : UserTransactionRequest → Option Text
unfolding payload_address
entry_module_address utr = elim utr.payload [ none ↦ none | some p ↦ payload_address p.payload ]

-- The nested `if let` on the focused contracts: false where it returns false.
passes_focus : Option (List Text) → Option Text → Bool
unfolding contains
passes_focus none address = true
passes_focus (some focus) none = true
passes_focus (some focus) (some address) = contains focus address

passes_skip : Option (List Text) → Text → Bool
unfolding contains
passes_skip none sender = true
passes_skip (some skip) sender = not (contains skip sender)

include_request : TransactionFilter → Option UserTransactionRequest → Bool
unfolding passes_focus passes_skip entry_module_address
include_request f none = true
include_request f (some utr) =
    if passes_skip f.skip_sender_addresses utr.sender
    then passes_focus f.focus_contract_addresses (entry_module_address utr)
    else false

include_data : TransactionFilter → Option TxnData → Bool
unfolding include_request
include_data f (some (TxnData.user u)) = include_request f u.request
include_data f none = true
include_data f (some (TxnData.block_metadata _)) = true
include_data f (some (TxnData.genesis _)) = true
include_data f (some TxnData.state_checkpoint) = true
include_data f (some TxnData.validator) = true

module _ (user_type : ℕ) where
  pub include : TransactionFilter → Transaction → Bool
  unfolding include_data
  include f t =
      let is_user_txn = t.transaction_type == user_type in
      if f.focus_user_transactions && not is_user_txn
      then false
      else if not is_user_txn
      then true
      else include_data f t.txn_data
