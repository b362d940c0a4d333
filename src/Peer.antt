-- ===== src/Peer.antt =====
-- internal/peer: transfers between two peers, and how peers come to trust one another.
pub mod Chunks
pub mod Transfer
pub mod Volume
pub mod RateLimit
pub mod Pairing
mod Tests
