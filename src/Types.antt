-- ===== src/Types.antt =====
-- types.go and the records of store.go: identifiers, scopes, errors, roles, grants, snapshots and
-- audit events. An identifier is a Go string, kept as its bytes.
pub mod Errors
pub mod Enums
pub mod Records
pub mod Ids
