-- ===== src/Manifest.antt =====
-- crates/guardian-core/src/manifest.rs: the manifest of a backup, its payload entries, and how it
-- is sealed.
mod Entries
mod Defs
mod Select
pub mod Valid
pub mod Sealing
pub mod Sealed
pub mod Payloads
pub mod Keys
pub mod Tests
unfoldable pub use Entries.*
unfoldable pub use Defs.*
unfoldable pub use Select.*
