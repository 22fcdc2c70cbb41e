-- ===== src/Text.antt =====
-- Rust's `str`, read as the list of its characters (code points), with its UTF-8 bytes computed:
-- `len` and `bytes` speak of bytes, `chars`, `split`, `contains` of characters. Shared by all of
-- crates/guardian-core/src.
mod Defs
mod Ascii
mod Prefix
mod Split
unfoldable pub use Defs.*
pub use Ascii.*
pub use Prefix.*
pub use Split.*
