-- ===== src/Dht.antt =====
-- The package dht.
pub mod Node
pub mod Distance
pub mod Closest
pub mod BucketId
pub mod Bucket
pub mod Table
pub mod Token
pub mod Blacklist
pub mod Transaction
pub mod PeerManager
pub mod Server
pub mod Search
pub mod Query
mod Tests
