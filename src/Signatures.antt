-- ===== src/Signatures.antt =====
-- The signatures of user transactions: rust/processor/src/models/user_transactions_models/signatures.rs.
pub mod Account
pub mod User
pub mod Keys
pub mod Distinct
pub mod PublicKeys
pub mod Agreement
mod Tests
