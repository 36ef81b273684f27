-- ===== src/Peer.antt =====
-- The package peerprotocol.
pub mod MType
pub mod Message
pub mod BitField
pub mod Pieces
pub mod Extension
pub mod Conn
pub mod Sends
pub mod Link
pub mod Handshake
mod Tests
