-- ===== src/Master.antt =====
-- internal/master: the control plane.
pub mod Registry
pub mod Orchestrator
pub mod Server
pub mod Proxy
pub mod Api
