-- ===== src/Manager.antt =====
-- src/fastapi_tenancy/manager.py.
pub mod Lifecycle
pub mod RateLimit
pub mod Metrics
pub mod CachingStore
pub mod Factory
pub mod Tenants
