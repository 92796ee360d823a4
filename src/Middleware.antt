-- ===== src/Middleware.antt =====
-- src/fastapi_tenancy/middleware.
pub mod Tenancy
