-- ===== src/Security.antt =====
-- internal/security: the hashes of passwords, and the texts that hold them.
pub mod Decimal
pub mod Base64
pub mod Password
mod Tests
