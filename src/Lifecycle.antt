-- ===== src/Lifecycle.antt =====
-- crates/guardian-core/src/state.rs: the states of a backup, and runs from one to another.
mod Defs
pub mod Runs
pub mod Tests
unfoldable pub use Defs.*
