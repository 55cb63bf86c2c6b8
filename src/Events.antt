-- ===== src/Events.antt =====
-- The events processor: rust/processor/src/models/events_models/events.rs (the rows) and
-- rust/processor/src/processors/events_processor.rs (which rows a batch gives). `serde_json` and `chrono`
-- are parameters. An event's index is the natural number that the source casts to `i64`.
pub mod Model
pub mod Collect
pub mod Required
pub mod Keys
pub mod Collision
mod Tests
