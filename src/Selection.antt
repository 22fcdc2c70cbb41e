-- ===== src/Selection.antt =====
-- crates/guardian-core/src/capture_selection.rs: from what the operator ticked to the roots that are
-- captured, with warnings and a confirmation text.
mod Defs
pub mod Roots
pub mod Preview
pub mod Tests
unfoldable pub use Defs.*
