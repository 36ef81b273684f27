-- ===== src/Krpc.antt =====
-- The package krpc.
pub mod Addr
pub mod Node
mod Tests
