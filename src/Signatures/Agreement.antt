-- ===== src/Signatures/Agreement.antt =====
-- Different kinds of transaction signature that give the same rows
-- (rust/processor/src/models/user_transactions_models/signatures.rs).
use aptos_indexer_processors.Prelude.{
  ℕ, ◌+◌, nth, Option-cases, inl, inr, ◌≡◌, refl, Option, some, Outcome, List, [], ◌∷◌, Text,
}
use aptos_indexer_processors.Prelude.Int.{ℤ}
use aptos_indexer_processors.Protos.Signatures.{
  AccountSignatureEnum, ed25519, multi_ed25519, single_key_signature, multi_key_signature,
  AccountSignature, FeePayerSignature, MultiAgentSignature, SignatureEnum, single_sender,
  TransactionSignature,
}
use aptos_indexer_processors.Signatures.Account.{Signature, Signing, account_rows}
use aptos_indexer_processors.Signatures.User.{
  secondary_rows, fee_payer_secondary_rows, parse_multi_agent_signature, parse_fee_payer_signature,
  single_sender_rows, from_user_transaction,
}

abbrev pub signed : SignatureEnum → TransactionSignature
signed kind = record { signature = some kind }

abbrev pub by : AccountSignatureEnum → AccountSignature
by kind = record { signature = some kind }

abbrev pub alone : AccountSignatureEnum → TransactionSignature
alone kind = signed (single_sender (record { sender = some (by kind) }))

-- Many signers, of whom the others are none.
abbrev pub without_others : AccountSignatureEnum → MultiAgentSignature
without_others kind = record {
  sender = some (by kind);
  secondary_signer_addresses = [];
  secondary_signers = [];
}

-- The signature with the fee payer's part left out.
abbrev pub without_payer : FeePayerSignature → MultiAgentSignature
without_payer s = record {
  sender = s.sender;
  secondary_signer_addresses = s.secondary_signer_addresses;
  secondary_signers = s.secondary_signers;
}

module _ (encode : Text → Text) (sender : Text) (v height : ℤ) where
  -- The two loops over the secondary signers, from each index on.
  fee_payer_secondary_rows_agree :
      (s : FeePayerSignature) (index : ℕ) (addresses : List Text)
      → fee_payer_secondary_rows encode sender v height s index addresses
        ≡ secondary_rows encode sender v height (without_payer s) index addresses
  unfolding fee_payer_secondary_rows secondary_rows
  fee_payer_secondary_rows_agree s index [] = refl
  fee_payer_secondary_rows_agree s index (address ∷ addresses) =
      elim (Option-cases (nth index s.secondary_signers)) [
        | inl missing ↦ rw (missing, fee_payer_secondary_rows, secondary_rows) refl
        | inr (signer, there) ↦
            rw (there, fee_payer_secondary_rows, secondary_rows)
              (rw (fee_payer_secondary_rows_agree s (index + 1) addresses) refl)
      ]

  pub parse_fee_payer_signature_agree :
      (s : FeePayerSignature)
      → parse_fee_payer_signature encode s sender v height
        ≡ parse_multi_agent_signature encode (without_payer s) sender v height
  unfolding parse_fee_payer_signature parse_multi_agent_signature
  parse_fee_payer_signature_agree s =
      rw (fee_payer_secondary_rows_agree s 0 s.secondary_signer_addresses) refl

  -- The two matches on the kind of an account's signature.
  pub single_sender_rows_agree :
      (a : Signing) (kind : AccountSignatureEnum)
      → single_sender_rows encode a (some kind) ≡ account_rows encode a kind
  unfolding single_sender_rows account_rows
  single_sender_rows_agree a (ed25519 s) = refl
  single_sender_rows_agree a (multi_ed25519 s) = refl
  single_sender_rows_agree a (single_key_signature s) = refl
  single_sender_rows_agree a (multi_key_signature s) = refl

  -- The rows of a signature, or its error or panic.
  abbrev pub rows_for : TransactionSignature → Outcome (Option (List Signature))
  rows_for s = from_user_transaction encode s sender v height
