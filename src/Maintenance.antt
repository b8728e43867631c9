-- ===== src/Maintenance.antt =====
-- maintenance.go: the export and the purge of a tenant, outside the manager.
pub mod Purge
pub mod Audited
pub mod Retry
