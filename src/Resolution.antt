-- ===== src/Resolution.antt =====
-- src/fastapi_tenancy/resolution: how a request names its tenant.
pub mod Request
pub mod Header
pub mod Path
pub mod Subdomain
pub mod Jwt
