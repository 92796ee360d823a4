-- ===== src/Storage.antt =====
-- src/fastapi_tenancy/storage: the stores of tenant records.
pub mod TenantStore
pub mod Memory
pub mod Redis
pub mod Sql
pub mod Contract
