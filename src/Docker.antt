-- ===== src/Docker.antt =====
-- crates/guardian-core/src/docker.rs: the untrusted inventory of containers, and its validation;
-- crates/guardian-core/src/source_layout.rs: the part of it that a backup records.
mod Inventory
mod Layout
pub mod Checked
pub mod Described
pub mod Layouts
pub mod Tests
unfoldable pub use Inventory.*
unfoldable pub use Layout.*
