-- ===== src/Signatures/Account.antt =====
-- The rows for the signature of one account, of any of its four kinds
-- (rust/processor/src/models/user_transactions_models/signatures.rs). `hex::encode` is a parameter; the
-- two JSON lists of indices are lists of numbers.
use aptos_indexer_processors.Prelude.{
  ℕ, ◌+◌, Option, none, some, Outcome, done, ◌>>=◌, unwrap, List, [], ◌∷◌, ◌++◌, map, nth, Bool,
  Text, bytes,
}
use aptos_indexer_processors.Prelude.Int.{ℤ}
use aptos_indexer_processors.Protos.Signatures.{
  SignatureVariant, ed25519_variant, keyless_variant, webauthn_variant, secp256k1_ecdsa_variant,
  AnySignatureType, ed25519_type, secp256k1_ecdsa_type, other_type, AnySignature, Ed25519Signature,
  MultiEd25519Signature, SingleKeySignature, IndexedSignature, MultiKeySignature,
  AccountSignatureEnum, ed25519, multi_ed25519, single_key_signature, multi_key_signature,
}
use aptos_indexer_processors.Util.Address.{standardize_address}

-- A row of the table `signatures`.
pub record Signature : Type 0 where
  pub transaction_version : ℤ
  pub multi_agent_index : ℕ
  pub multi_sig_index : ℕ
  pub transaction_block_height : ℤ
  pub signer : Text
  pub is_sender_primary : Bool
  pub type_ : Text
  pub public_key : Text
  pub signature : Text
  pub threshold : ℕ
  pub public_key_indices : List ℕ

-- The arguments that the parsing functions share.
pub record Signing : Type 0 where
  pub sender : Text
  pub transaction_version : ℤ
  pub transaction_block_height : ℤ
  pub is_sender_primary : Bool
  pub multi_agent_index : ℕ
  pub override_address : Option Text

unfoldable pub signer_of : Signing → Text
signer_of a = elim a.override_address [
  | some address ↦ standardize_address address
  | none ↦ standardize_address a.sender
]

-- The row with what all kinds of signature have in common.
unfoldable pub row_of : Signing → ℕ → Text → Text → Text → ℕ → List ℕ → Signature
unfolding signer_of
row_of a multi_sig_index type_ public_key signature threshold public_key_indices = record {
  transaction_version = a.transaction_version;
  multi_agent_index = a.multi_agent_index;
  multi_sig_index = multi_sig_index;
  transaction_block_height = a.transaction_block_height;
  signer = signer_of a;
  is_sender_primary = a.is_sender_primary;
  type_ = type_;
  public_key = public_key;
  signature = signature;
  threshold = threshold;
  public_key_indices = public_key_indices;
}

unfoldable pub get_any_signature_bytes : Option SignatureVariant → Option Text
get_any_signature_bytes (some (ed25519_variant s)) = some s
get_any_signature_bytes (some (keyless_variant s)) = some s
get_any_signature_bytes (some (webauthn_variant s)) = some s
get_any_signature_bytes (some (secp256k1_ecdsa_variant s)) = some s
get_any_signature_bytes none = none

-- `prefix` is `single_sender` or `multi_key`.
unfoldable pub get_any_signature_type : Option SignatureVariant → Text → Option Text
get_any_signature_type (some (ed25519_variant _)) prefix =
    some (prefix ++ bytes "_ed25519_signature")
get_any_signature_type (some (keyless_variant _)) prefix =
    some (prefix ++ bytes "_keyless_signature")
get_any_signature_type (some (webauthn_variant _)) prefix =
    some (prefix ++ bytes "_webauthn_signature")
get_any_signature_type (some (secp256k1_ecdsa_variant _)) prefix =
    some (prefix ++ bytes "_secp256k1_ecdsa_signature")
get_any_signature_type none prefix = none

-- The bytes of the signature, in the new or the old format.
unfoldable pub signature_bytes : AnySignature → Text
unfolding get_any_signature_bytes
signature_bytes s = elim (get_any_signature_bytes s.signature_variant) [
  | some new ↦ new
  | none ↦ s.signature
]

unfoldable pub old_single_key_type : Option AnySignatureType → Text
old_single_key_type (some ed25519_type) = bytes "single_key_ed25519_signature"
old_single_key_type (some secp256k1_ecdsa_type) = bytes "single_key_secp256k1_ecdsa_signature"
old_single_key_type (some other_type) = []
old_single_key_type none = []

unfoldable pub old_multi_key_type : Option AnySignatureType → Text
old_multi_key_type (some ed25519_type) = bytes "multi_key_ed25519_signature"
old_multi_key_type (some secp256k1_ecdsa_type) = bytes "multi_key_secp256k1_ecdsa_signature"
old_multi_key_type (some other_type) = bytes "unknown"
old_multi_key_type none = bytes "unknown"

unfoldable pub single_key_type : AnySignature → Text
unfolding get_any_signature_type old_single_key_type
single_key_type s = elim (get_any_signature_type s.signature_variant (bytes "single_sender")) [
  | some t ↦ t
  | none ↦ old_single_key_type s.type_
]

unfoldable pub multi_key_type : AnySignature → Text
unfolding get_any_signature_type old_multi_key_type
multi_key_type s = elim (get_any_signature_type s.signature_variant (bytes "multi_key")) [
  | some t ↦ t
  | none ↦ old_multi_key_type s.type_
]

module _ (encode : Text → Text) where
  -- `format!("0x{}", hex::encode(b))`
  abbrev pub hex : Text → Text
  hex b = bytes "0x" ++ encode b

  unfoldable pub parse_ed25519_signature : Signing → Ed25519Signature → Signature
  parse_ed25519_signature a s =
      row_of a 0 (bytes "ed25519_signature") (hex s.public_key) (hex s.signature) 1 []

  -- The rows from `index` on; an index that is missing or out of range panics.
  unfoldable pub multi_ed25519_rows :
      Signing → MultiEd25519Signature → ℕ → List Text → Outcome (List Signature)
  multi_ed25519_rows a s index [] = done []
  multi_ed25519_rows a s index (signature ∷ signatures) = do
    key_index ← unwrap (nth index s.public_key_indices)
    public_key ← unwrap (nth key_index s.public_keys)
    rows ← multi_ed25519_rows a s (index + 1) signatures
    done (
        row_of a index (bytes "multi_ed25519_signature") (hex public_key) (hex signature)
          s.threshold s.public_key_indices
        ∷ rows)

  unfoldable pub parse_multi_ed25519_signature :
      Signing → MultiEd25519Signature → Outcome (List Signature)
  unfolding multi_ed25519_rows
  parse_multi_ed25519_signature a s = multi_ed25519_rows a s 0 s.signatures

  unfoldable pub parse_single_key_signature : Signing → SingleKeySignature → Outcome Signature
  unfolding signature_bytes single_key_type
  parse_single_key_signature a s = do
    signature ← unwrap s.signature
    public_key ← unwrap s.public_key
    done (
        row_of a 0 (single_key_type signature) (hex public_key.public_key)
          (hex (signature_bytes signature)) 1 [])

  -- The rows from `index` on, with the public key of that position in the list of keys.
  unfoldable pub multi_key_rows :
      Signing → MultiKeySignature → ℕ → List IndexedSignature → Outcome (List Signature)
  unfolding signature_bytes multi_key_type
  multi_key_rows a s index [] = done []
  multi_key_rows a s index (indexed ∷ signatures) = do
    public_key ← unwrap (nth index s.public_keys)
    signature ← unwrap indexed.signature
    rows ← multi_key_rows a s (index + 1) signatures
    done (
        row_of a index (multi_key_type signature) (hex public_key.public_key)
          (hex (signature_bytes signature)) s.signatures_required (map (λ i. i.index) s.signatures)
        ∷ rows)

  unfoldable pub parse_multi_key_signature : Signing → MultiKeySignature → Outcome (List Signature)
  unfolding multi_key_rows
  parse_multi_key_signature a s = multi_key_rows a s 0 s.signatures

  -- The `match` of `parse_multi_agent_signature_helper`.
  unfoldable pub account_rows : Signing → AccountSignatureEnum → Outcome (List Signature)
  unfolding parse_ed25519_signature parse_multi_ed25519_signature parse_single_key_signature
  account_rows a (ed25519 s) = done (parse_ed25519_signature a s ∷ [])
  account_rows a (multi_ed25519 s) = parse_multi_ed25519_signature a s
  account_rows a (single_key_signature s) = do row ← parse_single_key_signature a s; done (row ∷ [])
  account_rows a (multi_key_signature s) = parse_multi_key_signature a s
