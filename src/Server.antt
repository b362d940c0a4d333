-- ===== src/Server.antt =====
-- internal/server: the log stream and the hub of the web interface.
pub mod LogStream
pub mod Hub
