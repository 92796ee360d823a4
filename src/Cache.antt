-- ===== src/Cache.antt =====
-- src/fastapi_tenancy/cache: the in-process cache of tenants.
pub mod TenantCache
