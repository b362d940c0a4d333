-- ===== src/Worker.antt =====
-- internal/worker: a worker's side of the control plane and of transfers.
pub mod Executor
pub mod Connector
pub mod TransferClient
