-- ===== src/Discovery.antt =====
-- What the core asks a server before a backup, through ports that it does not trust: its directories
-- (crates/guardian-core/src/remote_browser.rs), its databases (database.rs, database_connection.rs)
-- and its containers (`DiscoverDockerInventoryUseCase` of docker.rs).
mod Browser
mod Databases
mod Containers
pub mod Pages
pub mod Answers
pub mod Tests
unfoldable pub use Browser.*
unfoldable pub use Databases.*
unfoldable pub use Containers.*
