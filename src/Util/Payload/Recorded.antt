-- ===== src/Util/Payload/Recorded.antt =====
-- Which entry functions `get_entry_function_from_user_request` (rust/processor/src/utils/util.rs) gives.
use aptos_indexer_processors.Prelude.{
  ◌≡◌, refl, ap, ◌∙◌, Option, none, some, done, unwrap, unwrap-eq-done, >>=-eq-done, Text,
  Option-cases, inl, inr,
}
use aptos_indexer_processors.Protos.{
  Payload, entry_function_payload, script_payload, write_set_payload, multisig_payload,
  UserTransactionRequest, TransactionPayload, EntryFunctionPayload,
}
use aptos_indexer_processors.Util.Truncate.{truncate_str}
use aptos_indexer_processors.Util.Truncate.Bounds.{Truncated, truncate_str_cases}
use aptos_indexer_processors.Util.Payload.{
  max_entry_function_length, entry_function_of, get_entry_function_from_user_request,
}

-- The text comes from an entry function payload, cut to the maximal length.
abbrev pub IsRecorded : Option Payload → Text → Type 0
IsRecorded payload id =
    (p : EntryFunctionPayload) × (payload ≡ some (entry_function_payload p))
    × Truncated p.entry_function_id_str max_entry_function_length (done id)

some_same : {a b : Text} → done (some a) ≡ done (some b) → a ≡ b
some_same e = cc

none_not_some : {a : Text} → done none ≡ done (some a) → ⊥
none_not_some e = cc

entry_function_of_lem :
    (payload : Option Payload) (id : Text)
    → entry_function_of payload ≡ done (some id)
    → IsRecorded payload id
unfolding entry_function_of
entry_function_of_lem none id e = absurd (none_not_some e)
entry_function_of_lem (some (entry_function_payload p)) id e =
    let (s, e1, e2) =
      >>=-eq-done (truncate_str p.entry_function_id_str max_entry_function_length) _ e in
    let cut : truncate_str p.entry_function_id_str max_entry_function_length ≡ done id =
      e1 ∙ ap done (some_same e2) in
    (p, refl, rw cut at (truncate_str_cases p.entry_function_id_str max_entry_function_length))
entry_function_of_lem (some (script_payload _)) id e = absurd (none_not_some e)
entry_function_of_lem (some write_set_payload) id e = absurd (none_not_some e)
entry_function_of_lem (some (multisig_payload m)) id e = elim (Option-cases m.transaction_payload) [
  | inl none_ ↦ absurd (none_not_some (rw (none_, entry_function_of) at e))
  | inr (t, there) ↦
      let (_, _, e1) = >>=-eq-done (unwrap t.payload) _ (rw (there, entry_function_of) at e) in
      absurd (none_not_some e1)
]

-- An entry function is given only for a request whose payload is itself an entry function, never for
-- one that a multisig account executes, and it is the payload's, cut to 1000 bytes before a character.
pub get_entry_function_from_user_request-IsRecorded :
    (request : UserTransactionRequest) (id : Text)
    → get_entry_function_from_user_request request ≡ done (some id)
    → (w : TransactionPayload) × (request.payload ≡ some w) × IsRecorded w.payload id
unfolding get_entry_function_from_user_request
get_entry_function_from_user_request-IsRecorded request id e =
    let (w, e1, e2) = >>=-eq-done (unwrap request.payload) _ e in
    (w, unwrap-eq-done request.payload e1, entry_function_of_lem w.payload id e2)
