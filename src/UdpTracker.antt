-- ===== src/UdpTracker.antt =====
-- The UDP tracker (tracker/udptracker): the messages, the server and the client.
pub mod Extension
pub mod Announce
pub mod Scrape
pub mod Server
pub mod Client
mod Tests
