-- ===== src/Plans.antt =====
-- crates/guardian-core/src/restore.rs, deploy.rs, replace.rs and plan.rs: the plans that a sealed
-- backup gives, and their approval.
mod Defs
mod Replace
pub mod Approved
pub mod Reconciled
pub mod Tests
unfoldable pub use Defs.*
unfoldable pub use Replace.*
