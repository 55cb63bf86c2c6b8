-- ===== src/Queries.antt =====
-- The tables of rust/processor/src/schema.rs that the processors insert into, and their insert queries (the
-- functions `insert_.._query` of rust/processor/src/processors).
pub mod Upsert
pub mod Tables1
pub mod Tables2
pub mod Tables3
pub mod Tables4
pub mod Tables5
pub mod Tables6
pub mod Accounts
pub mod Ans
pub mod Coins
pub mod Default
pub mod Events
pub mod FungibleAssets
pub mod Objects
pub mod Stake
pub mod Tokens
pub mod TokensV2
pub mod Metadata
pub mod UserTransactions
pub mod WellTyped
pub mod Newest
pub mod Replay
pub mod Guarded
mod Tests
