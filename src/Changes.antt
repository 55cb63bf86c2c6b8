-- ===== src/Changes.antt =====
-- The write set changes of a transaction: write_set_changes.rs, move_modules.rs, move_resources.rs and
-- move_tables.rs of rust/processor/src/models/default_models.
pub mod Models
pub mod Details
pub mod Rows
pub mod Places
mod Tests
