-- ===== src/Server/Routes.antt =====
-- crates/server/src/routes: the handlers of the requests.
pub mod Names
pub mod Auth
pub mod Config
pub mod Template
pub mod ClashConfig
pub mod Sources
pub mod Combineds
pub mod Preview
pub mod Subscribe
