-- ===== src/Core.antt =====
-- src/fastapi_tenancy/core: the domain types, the exceptions, the naming and routing helpers of the
-- configuration, and the request context.
pub mod Types
pub mod Exceptions
pub mod Config
pub mod Context
