-- ===== src/Utils.antt =====
-- src/fastapi_tenancy/utils: the checks on identifiers and the sanitiser.
pub mod Chars
pub mod Validation
pub mod Sanitize
pub mod DbCompat
pub mod Encryption
pub mod Security
