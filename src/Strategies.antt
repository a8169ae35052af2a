-- ===== src/Strategies.antt =====
-- crates/strategies: the generated values that commands carry.
pub mod Source
pub mod Amounts
pub mod Time
pub mod Bytes
pub mod Entries
