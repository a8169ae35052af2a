-- ===== src/Core.antt =====
-- crates/core: the engine, with no knowledge of any contract.
pub mod Auth
pub mod Command
pub mod Adapter
pub mod Harness
