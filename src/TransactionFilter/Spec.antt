-- ===== src/TransactionFilter/Spec.antt =====
-- The doc comment of rust/processor/src/transaction_filter.rs as a predicate: criteria combined with
-- `AND`, a criterion that is not set ignored.
use aptos_indexer_processors.Prelude.{
  ℕ, ◌≡◌, ◌↔◌, refl, inl, inr, Option, none, some, List, [], ◌∷◌, true, arith, Text, text_eq,
  same_text_iff, Has, Bool-cases, nat_beq, nat_beq_iff,
}
use aptos_indexer_processors.Protos.{Transaction, TxnData, UserTransactionRequest}
use aptos_indexer_processors.TransactionFilter.{
  TransactionFilter, contains, entry_module_address, passes_focus, passes_skip, include_request,
  include_data, include,
}

pub contains_iff : (xs : List Text) (a : Text) → (contains xs a ≡ true) ↔ Has a xs
unfolding contains
contains_iff [] a = (λ h. cc, λ h. absurd h)
contains_iff (x ∷ xs) a = (
  λ h. ground (arith, contains_iff xs a, same_text_iff x a),
  λ h. ground (arith, contains_iff xs a, same_text_iff x a),
)

-- The user request of a transaction, where there is one.
abbrev pub request_of : Option TxnData → Option UserTransactionRequest
request_of (some (TxnData.user u)) = u.request
request_of none = none
request_of (some (TxnData.block_metadata _)) = none
request_of (some (TxnData.genesis _)) = none
request_of (some TxnData.state_checkpoint) = none
request_of (some TxnData.validator) = none

-- The sender is not in the skip list.
abbrev pub NotSkipped : Option (List Text) → Text → Type 0
NotSkipped none sender = Unit
NotSkipped (some skip) sender = ¬ Has sender skip

-- The called module's address, where there is one, is among the focused ones.
abbrev pub InFocus : Option (List Text) → Option Text → Type 0
InFocus none address = Unit
InFocus (some focus) none = Unit
InFocus (some focus) (some address) = Has address focus

abbrev pub RequestAllowed : TransactionFilter → Option UserTransactionRequest → Type 0
RequestAllowed f none = Unit
RequestAllowed f (some utr) =
    NotSkipped f.skip_sender_addresses utr.sender
    × InFocus f.focus_contract_addresses (entry_module_address utr)

abbrev pub Allowed : ℕ → TransactionFilter → Transaction → Type 0
Allowed user_type f t =
    (f.focus_user_transactions ≡ true → t.transaction_type ≡ user_type)
    × (t.transaction_type ≡ user_type → RequestAllowed f (request_of t.txn_data))

passes_skip_iff : (s : Option (List Text)) (a : Text) → (passes_skip s a ≡ true) ↔ NotSkipped s a
unfolding passes_skip
passes_skip_iff none a = (λ h. tt, λ h. refl)
passes_skip_iff (some skip) a =
    (λ h m. ground (arith, contains_iff skip a), λ h. ground (arith, contains_iff skip a))

passes_focus_iff :
    (s : Option (List Text)) (a : Option Text) → (passes_focus s a ≡ true) ↔ InFocus s a
unfolding passes_focus
passes_focus_iff none a = (λ h. tt, λ h. refl)
passes_focus_iff (some focus) none = (λ h. tt, λ h. refl)
passes_focus_iff (some focus) (some a) = contains_iff focus a

include_request_iff :
    (f : TransactionFilter) (r : Option UserTransactionRequest)
    → (include_request f r ≡ true) ↔ RequestAllowed f r
unfolding include_request
include_request_iff f none = (λ h. tt, λ h. refl)
include_request_iff f (some utr) =
    let skip = passes_skip_iff f.skip_sender_addresses utr.sender in
    let focus = passes_focus_iff f.focus_contract_addresses (entry_module_address utr) in
    elim (Bool-cases (passes_skip f.skip_sender_addresses utr.sender)) [
      | inl e ↦ rw e (λ h. (skip.0 e, focus.0 h), λ h. focus.1 h.1)
      | inr e ↦ rw e (λ h. cc, λ h. cc (skip.1 h.0))
    ]

include_data_iff :
    (f : TransactionFilter) (d : Option TxnData)
    → (include_data f d ≡ true) ↔ RequestAllowed f (request_of d)
unfolding include_data
include_data_iff f none = (λ h. tt, λ h. refl)
include_data_iff f (some (TxnData.user u)) = include_request_iff f u.request
include_data_iff f (some _) = (λ h. tt, λ h. refl)

-- `include` admits a transaction exactly when each criterion that is set allows it: a user transaction
-- where only those are wanted, a sender that is not skipped, and a called module in focus. The last two
-- bind user transactions only, and a payload without a module address passes the focus.
pub include_iff :
    (user_type : ℕ) (f : TransactionFilter) (t : Transaction)
    → (include user_type f t ≡ true) ↔ Allowed user_type f t
unfolding include
include_iff user_type f t =
    let inner = include_data_iff f t.txn_data in
    let test = nat_beq_iff t.transaction_type user_type in
    elim (Bool-cases (nat_beq t.transaction_type user_type)) [
      | inl e ↦ elim (Bool-cases f.focus_user_transactions) [
        | inl focus ↦
            rw (e, focus) (λ h. (λ _. test.0 e, λ _. inner.0 h), λ h. inner.1 (h.1 (test.0 e)))
        | inr open_ ↦
            rw (e, open_) (λ h. (λ _. test.0 e, λ _. inner.0 h), λ h. inner.1 (h.1 (test.0 e)))
      ]
      | inr e ↦ elim (Bool-cases f.focus_user_transactions) [
        | inl focus ↦ rw (e, focus) (λ h. cc, λ h. cc (test.1 (h.0 refl)))
        | inr open_ ↦ rw (e, open_) (λ h. (λ k. cc, λ k. cc (test.1 k)), λ h. refl)
      ]
    ]
