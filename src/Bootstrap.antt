-- ===== src/Bootstrap.antt =====
-- bootstrap.go: the first administrator of a tenant.
pub mod Inputs
pub mod Tenant
pub mod Checked
pub mod Owner
pub mod Edges
pub mod Provisioned
