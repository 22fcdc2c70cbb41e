-- ===== src/Identifiers.antt =====
-- crates/guardian-core/src/identifiers.rs: the validated names, paths and timestamps that all other
-- parts carry, and the path tests that other files of the crate repeat.
mod Defs
mod Remote
pub mod Names
pub mod Paths
pub mod Segments
pub mod Dates
pub mod Tests
unfoldable pub use Defs.*
unfoldable pub use Remote.*
