-- ===== src/CoreSync.antt =====
-- internal/coresync/sync.go: the rules for the paths that the synchronisation may touch.
pub mod Paths
pub mod Manifest
mod Tests
