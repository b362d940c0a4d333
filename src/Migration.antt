-- ===== src/Migration.antt =====
-- internal/migration: the migration engine and its parts.
pub mod PathMap
pub mod Rollback
pub mod Volume
pub mod Job
pub mod Cold
pub mod Warm
pub mod Audit
pub mod Engine
