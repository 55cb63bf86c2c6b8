-- ===== src/Coin.antt =====
-- The coin processor: rust/processor/src/processors/coin_processor.rs and
-- rust/processor/src/models/coin_models.
pub mod Resources
pub mod Rows
pub mod Activities
pub mod Transaction
pub mod Batch
pub mod Insert
pub mod Latest
pub mod Current
pub mod Keep
pub mod First
pub mod Origin
mod Tests
