-- ===== src/Metainfo.antt =====
-- The package metainfo.
pub mod Files
pub mod Piece
pub mod Addr
mod Tests
