-- ===== src/Util.antt =====
-- rust/processor/src/utils/util.rs: addresses, truncation, null bytes, payloads and timestamps.
pub mod Address
pub mod Truncate
pub mod NullBytes
pub mod Payload
pub mod Timestamp
mod Tests
