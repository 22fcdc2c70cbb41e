-- ===== src/Capture.antt =====
-- crates/guardian-core/src/capture.rs and embedded_database.rs, over the ports of storage.rs,
-- audit.rs and archive.rs: how a capture and a backup run, and how each failure is cleaned up.
mod Ports
mod Defs
pub mod Failures
pub mod Databases
pub mod Sealing
pub mod Tests
unfoldable pub use Ports.*
unfoldable pub use Defs.*
