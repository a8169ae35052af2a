-- ===== src/Server.antt =====
-- crates/server: the store of campaigns and runs.
pub mod Store
pub mod Targets
pub mod Runner
pub mod Worker
pub mod Api
pub mod Config
pub mod Start
