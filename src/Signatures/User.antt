-- ===== src/Signatures/User.antt =====
-- The signatures of a transaction: `from_user_transaction`, `get_signature_type` and
-- `get_fee_payer_address` of rust/processor/src/models/user_transactions_models/signatures.rs. The inner
-- option is none where the source returns an error.
use aptos_indexer_processors.Prelude.{
  ℕ, ◌+◌, Option, none, some, Outcome, done, ◌>>=◌, unwrap, List, [], ◌∷◌, ◌++◌, nth, true, false,
  Text, bytes,
}
use aptos_indexer_processors.Prelude.Int.{ℤ}
use aptos_indexer_processors.Protos.Signatures.{
  AccountSignatureEnum, ed25519, multi_ed25519, single_key_signature, multi_key_signature,
  AccountSignature, MultiAgentSignature, FeePayerSignature, SingleSender, SignatureEnum,
  user_ed25519, user_multi_ed25519, multi_agent, fee_payer, single_sender, TransactionSignature,
}
use aptos_indexer_processors.Util.Address.{standardize_address}
use aptos_indexer_processors.Signatures.Account.{
  Signature, Signing, parse_ed25519_signature, parse_multi_ed25519_signature,
  parse_single_key_signature, parse_multi_key_signature, account_rows,
}

-- The arguments for the sender, and for the secondary signer of an index.
unfoldable pub primary : Text → ℤ → ℤ → Signing
primary sender version height = record {
  sender = sender;
  transaction_version = version;
  transaction_block_height = height;
  is_sender_primary = true;
  multi_agent_index = 0;
  override_address = none;
}

unfoldable pub secondary : Text → ℤ → ℤ → ℕ → Text → Signing
secondary sender version height index address = record {
  sender = sender;
  transaction_version = version;
  transaction_block_height = height;
  is_sender_primary = false;
  multi_agent_index = index;
  override_address = some address;
}

unfoldable pub prepend : List Signature → Option (List Signature) → Option (List Signature)
prepend rows none = none
prepend rows (some more) = some (rows ++ more)

module _ (encode : Text → Text) where
  unfoldable pub parse_multi_agent_signature_helper :
      Signing → AccountSignature → Outcome (List Signature)
  unfolding account_rows
  parse_multi_agent_signature_helper a s = do
    signature ← unwrap s.signature
    account_rows encode a signature

  -- The loop of `parse_multi_agent_signature` over the secondary signers from `index` on; one that is
  -- missing is an error.
  unfoldable pub secondary_rows :
      Text → ℤ → ℤ → MultiAgentSignature → ℕ → List Text → Outcome (Option (List Signature))
  unfolding parse_multi_agent_signature_helper secondary prepend
  secondary_rows sender version height s index [] = done (some [])
  secondary_rows sender version height s index (address ∷ addresses) =
      elim (nth index s.secondary_signers) [
        | none ↦ done none
        | some secondary_sig ↦ do
          rows ←
              parse_multi_agent_signature_helper (secondary sender version height index address)
                secondary_sig
          more ← secondary_rows sender version height s (index + 1) addresses
          done (prepend rows more)
      ]

  -- The sender's rows and those of the secondary signers.
  unfoldable pub parse_multi_agent_signature :
      MultiAgentSignature → Text → ℤ → ℤ → Outcome (Option (List Signature))
  unfolding parse_multi_agent_signature_helper primary secondary_rows prepend
  parse_multi_agent_signature s sender version height = do
    first ← unwrap s.sender
    rows ← parse_multi_agent_signature_helper (primary sender version height) first
    more ← secondary_rows sender version height s 0 s.secondary_signer_addresses
    done (prepend rows more)

  -- The loop of `parse_fee_payer_signature`, which is written a second time.
  unfoldable pub fee_payer_secondary_rows :
      Text → ℤ → ℤ → FeePayerSignature → ℕ → List Text → Outcome (Option (List Signature))
  unfolding parse_multi_agent_signature_helper secondary prepend
  fee_payer_secondary_rows sender version height s index [] = done (some [])
  fee_payer_secondary_rows sender version height s index (address ∷ addresses) =
      elim (nth index s.secondary_signers) [
        | none ↦ done none
        | some secondary_sig ↦ do
          rows ←
              parse_multi_agent_signature_helper (secondary sender version height index address)
                secondary_sig
          more ← fee_payer_secondary_rows sender version height s (index + 1) addresses
          done (prepend rows more)
      ]

  -- The signature of the fee payer itself gives no row.
  unfoldable pub parse_fee_payer_signature :
      FeePayerSignature → Text → ℤ → ℤ → Outcome (Option (List Signature))
  unfolding parse_multi_agent_signature_helper primary fee_payer_secondary_rows prepend
  parse_fee_payer_signature s sender version height = do
    first ← unwrap s.sender
    rows ← parse_multi_agent_signature_helper (primary sender version height) first
    more ← fee_payer_secondary_rows sender version height s 0 s.secondary_signer_addresses
    done (prepend rows more)

  -- The `match` of `parse_single_sender`; a signature that is not set gives no row.
  unfoldable pub single_sender_rows :
      Signing → Option AccountSignatureEnum → Outcome (List Signature)
  unfolding parse_ed25519_signature parse_multi_ed25519_signature parse_single_key_signature
      parse_multi_key_signature
  single_sender_rows a (some (single_key_signature s)) = do
    row ← parse_single_key_signature encode a s
    done (row ∷ [])
  single_sender_rows a (some (multi_key_signature s)) = parse_multi_key_signature encode a s
  single_sender_rows a (some (ed25519 s)) = done (parse_ed25519_signature encode a s ∷ [])
  single_sender_rows a (some (multi_ed25519 s)) = parse_multi_ed25519_signature encode a s
  single_sender_rows a none = done []

  unfoldable pub parse_single_sender : SingleSender → Text → ℤ → ℤ → Outcome (List Signature)
  unfolding single_sender_rows primary
  parse_single_sender s sender version height = do
    signer ← unwrap s.sender
    single_sender_rows (primary sender version height) signer.signature

  abbrev no_error : Outcome (List Signature) → Outcome (Option (List Signature))
  no_error rows = rows >>= λ r. done (some r)

  -- The `match` on the kind of signature.
  unfoldable pub rows_of_kind : SignatureEnum → Text → ℤ → ℤ → Outcome (Option (List Signature))
  unfolding parse_ed25519_signature parse_multi_ed25519_signature parse_multi_agent_signature
      parse_fee_payer_signature parse_single_sender primary
  rows_of_kind (user_ed25519 s) sender version height =
      done (some (parse_ed25519_signature encode (primary sender version height) s ∷ []))
  rows_of_kind (user_multi_ed25519 s) sender version height =
      no_error (parse_multi_ed25519_signature encode (primary sender version height) s)
  rows_of_kind (multi_agent s) sender version height =
      parse_multi_agent_signature s sender version height
  rows_of_kind (fee_payer s) sender version height =
      parse_fee_payer_signature s sender version height
  rows_of_kind (single_sender s) sender version height =
      no_error (parse_single_sender s sender version height)

  unfoldable pub from_user_transaction :
      TransactionSignature → Text → ℤ → ℤ → Outcome (Option (List Signature))
  unfolding rows_of_kind
  from_user_transaction s sender version height = do
    kind ← unwrap s.signature
    rows_of_kind kind sender version height

unfoldable pub account_signature_type : AccountSignatureEnum → Text
account_signature_type (ed25519 _) = bytes "ed25519_signature"
account_signature_type (multi_ed25519 _) = bytes "multi_ed25519_signature"
account_signature_type (single_key_signature _) = bytes "single_key_signature"
account_signature_type (multi_key_signature _) = bytes "multi_key_signature"

unfoldable pub type_of_kind : SignatureEnum → Outcome Text
unfolding account_signature_type
type_of_kind (user_ed25519 _) = done (bytes "ed25519_signature")
type_of_kind (user_multi_ed25519 _) = done (bytes "multi_ed25519_signature")
type_of_kind (multi_agent _) = done (bytes "multi_agent_signature")
type_of_kind (fee_payer _) = done (bytes "fee_payer_signature")
type_of_kind (single_sender s) = do
  account_signature ← unwrap s.sender
  signature ← unwrap account_signature.signature
  done (account_signature_type signature)

unfoldable pub get_signature_type : TransactionSignature → Outcome Text
unfolding type_of_kind
get_signature_type t = do kind ← unwrap t.signature; type_of_kind kind

unfoldable pub fee_payer_of : SignatureEnum → Option Text
fee_payer_of (fee_payer s) = some (standardize_address s.fee_payer_address)
fee_payer_of (user_ed25519 _) = none
fee_payer_of (user_multi_ed25519 _) = none
fee_payer_of (multi_agent _) = none
fee_payer_of (single_sender _) = none

unfoldable pub get_fee_payer_address : TransactionSignature → Outcome (Option Text)
unfolding fee_payer_of
get_fee_payer_address t = do kind ← unwrap t.signature; done (fee_payer_of kind)
