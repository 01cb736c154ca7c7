-- ===== src/Contracts.antt =====
-- internal/contracts/contracts.go: the records that the components exchange and their `Validate`
-- methods. A Go string is a `Text`, an identifier too.
pub mod Tenant
pub mod Job
pub mod Profile
pub mod Retrieval
pub mod Audit
