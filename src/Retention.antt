-- ===== src/Retention.antt =====
-- crates/guardian-core/src/retention.rs: which backups a retention policy deletes.
mod Defs
pub mod Kept
pub mod PlanIds
pub mod Tests
unfoldable pub use Defs.*
