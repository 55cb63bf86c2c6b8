-- ===== src/Protos/Signatures.antt =====
-- The messages of `aptos_protos` for the signatures of a user transaction. A type number of the older
-- format is what `try_from` of the crate makes of it.
use aptos_indexer_processors.Prelude.{ℕ, Option, List, Text}

pub data SignatureVariant : Type 0 where
  ed25519_variant keyless_variant webauthn_variant secp256k1_ecdsa_variant : Text → SignatureVariant

pub data AnySignatureType : Type 0 where
  ed25519_type secp256k1_ecdsa_type other_type : AnySignatureType

pub record AnySignature : Type 0 where
  pub signature_variant : Option SignatureVariant
  pub type_ : Option AnySignatureType
  pub signature : Text

pub record Ed25519Signature : Type 0 where
  pub public_key : Text
  pub signature : Text

pub record MultiEd25519Signature : Type 0 where
  pub public_keys : List Text
  pub signatures : List Text
  pub threshold : ℕ
  pub public_key_indices : List ℕ

pub record AnyPublicKey : Type 0 where
  pub public_key : Text

pub record SingleKeySignature : Type 0 where
  pub public_key : Option AnyPublicKey
  pub signature : Option AnySignature

pub record IndexedSignature : Type 0 where
  pub index : ℕ
  pub signature : Option AnySignature

pub record MultiKeySignature : Type 0 where
  pub public_keys : List AnyPublicKey
  pub signatures : List IndexedSignature
  pub signatures_required : ℕ

pub data AccountSignatureEnum : Type 0 where
  ed25519 : Ed25519Signature → AccountSignatureEnum
  multi_ed25519 : MultiEd25519Signature → AccountSignatureEnum
  single_key_signature : SingleKeySignature → AccountSignatureEnum
  multi_key_signature : MultiKeySignature → AccountSignatureEnum

pub record AccountSignature : Type 0 where
  pub signature : Option AccountSignatureEnum

pub record MultiAgentSignature : Type 0 where
  pub sender : Option AccountSignature
  pub secondary_signer_addresses : List Text
  pub secondary_signers : List AccountSignature

pub record FeePayerSignature : Type 0 where
  pub sender : Option AccountSignature
  pub secondary_signer_addresses : List Text
  pub secondary_signers : List AccountSignature
  pub fee_payer_address : Text
  pub fee_payer_signer : Option AccountSignature

pub record SingleSender : Type 0 where
  pub sender : Option AccountSignature

pub data SignatureEnum : Type 0 where
  user_ed25519 : Ed25519Signature → SignatureEnum
  user_multi_ed25519 : MultiEd25519Signature → SignatureEnum
  multi_agent : MultiAgentSignature → SignatureEnum
  fee_payer : FeePayerSignature → SignatureEnum
  single_sender : SingleSender → SignatureEnum

pub record TransactionSignature : Type 0 where
  pub signature : Option SignatureEnum
