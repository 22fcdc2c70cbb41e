-- ===== src/Profile.antt =====
-- crates/guardian-core/src/profile.rs, host_trust.rs, enroll_profile.rs, preflight.rs: the profile of
-- a server, its pinned host key, and the use cases that save one.
mod Defs
mod Ports
pub mod HostKeys
pub mod Endpoints
pub mod Enrollment
pub mod Saved
pub mod Tests
unfoldable pub use Defs.*
unfoldable pub use Ports.*
