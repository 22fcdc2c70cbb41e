-- ===== src/Encryption.antt =====
-- The envelope of an encrypted payload (crates/guardian-encryption/src/lib.rs).
mod Defs
mod Words
mod Frames
mod Reading
mod Accepted
mod Fuel
mod Envelopes
mod Tests
unfoldable pub use Defs.*
