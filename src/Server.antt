-- ===== src/Server.antt =====
-- crates/server/src: the service around the core.
pub mod Fetch
pub mod Service
pub mod Sessions
pub mod Users
pub mod ApiError
pub mod Sources
pub mod Combineds
pub mod Auth
pub mod App
pub mod Store
pub mod Routes
pub mod Router
pub mod Static
pub mod Migration
