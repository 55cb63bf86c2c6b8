-- ===== src/Signatures/Tests.antt =====
-- Signatures of concrete transactions, for the theorems of Signatures.
use aptos_indexer_processors.Prelude.{
  ◌≡◌, refl, none, some, done, List, [], ◌∷◌, Text, bytes, All, ◌↔◌, nth, ℕ,
}
use aptos_indexer_processors.Prelude.Int.{pos}
use aptos_indexer_processors.Protos.Signatures.{
  ed25519, multi_ed25519, Ed25519Signature, MultiEd25519Signature, MultiKeySignature,
  IndexedSignature, ed25519_variant, multi_agent, TransactionSignature,
}
use aptos_indexer_processors.Signatures.Account.{
  Signature, Signing, parse_ed25519_signature, multi_ed25519_rows, parse_multi_ed25519_signature,
  multi_key_rows, parse_multi_key_signature, account_rows, hex, row_of, signature_bytes,
  multi_key_type,
}
use aptos_indexer_processors.Signatures.User.{
  primary, secondary, prepend, parse_multi_agent_signature_helper, secondary_rows,
  parse_multi_agent_signature, rows_of_kind, from_user_transaction,
}
use aptos_indexer_processors.Signatures.Keys.{Ordered}
use aptos_indexer_processors.Signatures.Distinct.{OfVersion, from_user_transaction-Ordered}
use aptos_indexer_processors.Signatures.PublicKeys.{
  KeyOf, RowOf, PositionalRow, parse_multi_ed25519_signature-keys, parse_multi_key_signature-keys,
}
use aptos_indexer_processors.Signatures.Agreement.{by, signed}

-- Bytes written as they are.
abbrev plain : Text → Text
plain b = b

abbrev one_key : Ed25519Signature
one_key = record { public_key = bytes "k0"; signature = bytes "s0" }

-- The second key signs, then the first.
abbrev two_keys : MultiEd25519Signature
two_keys = record {
  public_keys = bytes "k0" ∷ bytes "k1" ∷ [];
  signatures = bytes "s1" ∷ bytes "s0" ∷ [];
  threshold = 2;
  public_key_indices = 1 ∷ 0 ∷ [];
}

abbrev second_signature : IndexedSignature
second_signature = record {
  index = 1;
  signature = some (record {
    signature_variant = some (ed25519_variant (bytes "s1"));
    type_ = none;
    signature = [];
  });
}

-- One of three keys, the second, signs.
abbrev one_of_three : MultiKeySignature
one_of_three = record {
  public_keys =
      record { public_key = bytes "k0" }
      ∷ record { public_key = bytes "k1" }
      ∷ record { public_key = bytes "k2" }
      ∷ [];
  signatures = second_signature ∷ [];
  signatures_required = 1;
}

abbrev first_account : Signing
first_account = primary (bytes "0x1") (pos 5) (pos 2)

abbrev two_agents : TransactionSignature
two_agents = signed (
    multi_agent (record {
      sender = some (by (multi_ed25519 two_keys));
      secondary_signer_addresses = bytes "0x2" ∷ [];
      secondary_signers = by (ed25519 one_key) ∷ [];
    }))

abbrev rows_of_two_agents : List Signature
rows_of_two_agents =
    row_of first_account 0 (bytes "multi_ed25519_signature") (hex plain (bytes "k1"))
      (hex plain (bytes "s1")) 2 (1 ∷ 0 ∷ [])
    ∷ row_of first_account 1 (bytes "multi_ed25519_signature") (hex plain (bytes "k0"))
        (hex plain (bytes "s0")) 2 (1 ∷ 0 ∷ [])
    ∷ row_of (secondary (bytes "0x1") (pos 5) (pos 2) 0 (bytes "0x2")) 0 (bytes "ed25519_signature")
        (hex plain (bytes "k0")) (hex plain (bytes "s0")) 1 []
    ∷ []

from_user_transaction_test :
    from_user_transaction plain two_agents (bytes "0x1") (pos 5) (pos 2)
    ≡ done (some rows_of_two_agents)
unfolding from_user_transaction rows_of_kind parse_multi_agent_signature
    parse_multi_agent_signature_helper secondary_rows account_rows parse_multi_ed25519_signature
    multi_ed25519_rows parse_ed25519_signature prepend
from_user_transaction_test = refl

from_user_transaction-Ordered_example :
    Ordered rows_of_two_agents × All (OfVersion (pos 5)) rows_of_two_agents
from_user_transaction-Ordered_example =
    from_user_transaction-Ordered plain (bytes "0x1") (pos 5) (pos 2) two_agents rows_of_two_agents
      from_user_transaction_test

parse_multi_ed25519_signature-keys_example :
    (((rows : List Signature) × (parse_multi_ed25519_signature plain first_account two_keys
          ≡ done rows))
      ↔ ((i : ℕ) (sig : Text)
          → nth i two_keys.signatures ≡ some sig
          → (key : Text) × KeyOf two_keys i key))
    × ((rows : List Signature)
        → parse_multi_ed25519_signature plain first_account two_keys ≡ done rows
        → (i : ℕ) (sig : Text) → nth i two_keys.signatures ≡ some sig
        → (key : Text) × KeyOf two_keys i key × RowOf plain rows i i key sig)
parse_multi_ed25519_signature-keys_example =
    parse_multi_ed25519_signature-keys plain first_account two_keys

abbrev second_of_three_row : Signature
second_of_three_row =
    row_of first_account 0 (bytes "multi_key_ed25519_signature") (hex plain (bytes "k0"))
      (hex plain (bytes "s1")) 1 (1 ∷ [])

one_of_three_test :
    parse_multi_key_signature plain first_account one_of_three ≡ done (second_of_three_row ∷ [])
unfolding parse_multi_key_signature multi_key_rows multi_key_type signature_bytes
one_of_three_test = refl

-- The second key signed; the row has the first.
parse_multi_key_signature-keys_example :
    PositionalRow plain one_of_three (second_of_three_row ∷ []) 0 0
parse_multi_key_signature-keys_example =
    parse_multi_key_signature-keys plain first_account one_of_three (second_of_three_row ∷ [])
      one_of_three_test 0 second_signature refl
