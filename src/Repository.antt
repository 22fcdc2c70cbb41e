-- ===== src/Repository.antt =====
-- The local repository (crates/guardian-local-repository/src): how a retention plan is carried out on
-- the disk, how an interrupted one is recovered, and how a sealed backup is checked.
mod Files
mod Journal
mod Reconcile
mod Rules
mod Calls
mod Entries
mod Places
mod Damage
mod Cleanup
mod Finishing
mod Completing
mod Moves
mod Rollback
mod Recovery
mod CrashSafe
pub mod Sealed
mod Tests
unfoldable pub use Files.*
unfoldable pub use Journal.*
unfoldable pub use Reconcile.*
