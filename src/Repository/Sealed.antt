-- ===== src/Repository/Sealed.antt =====
-- Reading a sealed backup of the local repository
-- (crates/guardian-local-repository/src/verification.rs, inventory.rs, signature_file.rs).
mod Tree
mod Load
mod Walk
pub mod Exact
pub mod Trusted
pub mod Inventory
pub mod Tests
unfoldable pub use Tree.*
unfoldable pub use Load.*
