-- ===== src/Isolation.antt =====
-- src/fastapi_tenancy/isolation: how tenants are mapped to databases and to providers.
pub mod Database
pub mod Hybrid
pub mod Engines
pub mod Filters
pub mod Session
pub mod Schema
pub mod Rls
