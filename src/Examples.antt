-- ===== src/Examples.antt =====
-- examples/: three contracts and what wires them into the engine.
pub mod Host
pub mod Counter
pub mod Escrow
pub mod Token
