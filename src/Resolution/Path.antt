-- ===== src/Resolution/Path.antt =====
-- resolution/path.py: PathTenantResolver. The resolver returns the request with its state beside
-- the result.
pub mod Segments
use fastapi_tenancy.Prelude.{
  Text, codes, some, starts_with, List, [], ◌∷◌, ◌++◌, Bool, ◌==◌, length, drop, if◌then◌else◌, ℕ,
}
use fastapi_tenancy.Core.Types.{Tenant, path}
use fastapi_tenancy.Core.Exceptions.{
  Result, raise, tenant_resolution, path_prefix, path_empty, path_segment,
}
use fastapi_tenancy.Utils.Chars.{is_empty, strip, rstrip}
use fastapi_tenancy.Utils.Validation.{validate_tenant_identifier}
use fastapi_tenancy.Resolution.Request.{Request, Lookup, before}

abbrev pub is_slash : ℕ → Bool
is_slash c = c == b'/'

-- The constructor's self._prefix.
unfoldable pub normalise : Text → Text
normalise prefix = b'/' ∷ strip is_slash prefix

abbrev pub with_slash : Text → Text
with_slash prefix = rstrip is_slash prefix ++ b'/' ∷ []

abbrev pub or_root : Text → Text
or_root [] = b'/' ∷ []
or_root (c ∷ s) = c ∷ s

-- From the remainder after the prefix on.
unfoldable pub resolve_remainder : Lookup → Text → Text → Request → Result Tenant × Request
resolve_remainder get_by_identifier prefix remainder request =
    let identifier = before b'/' remainder in
    if is_empty identifier
    then (raise (tenant_resolution (path_empty prefix) path), request)
    else if validate_tenant_identifier identifier
    then (
      get_by_identifier identifier,
      record request {
        tenant_path_remainder = some (or_root (drop (length identifier) remainder));
      },
    )
    else (raise (tenant_resolution (path_segment identifier) path), request)

unfoldable pub resolve : Lookup → Text → Request → Result Tenant × Request
resolve get_by_identifier prefix request =
    if starts_with (with_slash prefix) request.path
    then resolve_remainder get_by_identifier prefix (drop (length (with_slash prefix)) request.path)
        request
    else (raise (tenant_resolution (path_prefix request.path (with_slash prefix)) path), request)
