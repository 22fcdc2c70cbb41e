-- ===== src/Jobs.antt =====
-- crates/guardian-core/src/job_registry.rs and cancellation.rs: the running jobs, and how one of them
-- is told to stop.
mod Defs
pub mod Traces
pub mod Tests
unfoldable pub use Defs.*
