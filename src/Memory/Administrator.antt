-- ===== src/Memory/Administrator.antt =====
-- `HasAdministrator` of memory/memory.go: what it looks for, as a relation.
pub mod Defs
pub mod Justified
pub mod Valid
pub mod Extends
pub mod Additions
pub mod Reached
pub mod Sound
