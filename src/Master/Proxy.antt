-- ===== src/Master/Proxy.antt =====
-- internal/master/proxy.go: the relay of a migration's data through the master.
pub mod Channels
pub mod Relaying
pub mod Faithful
pub mod Sessions
pub mod Dead
pub mod Kept
pub mod Stuck
mod Tests
