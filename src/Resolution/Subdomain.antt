-- ===== src/Resolution/Subdomain.antt =====
-- resolution/subdomain.py: SubdomainTenantResolver. str.lower is a parameter.
pub mod Hosts
use fastapi_tenancy.Prelude.{
  Text, codes, Option, none, some, List, [], ◌∷◌, Bool, true, false, not, ◌&&◌, starts_with,
  if◌then◌else◌,
}
use fastapi_tenancy.Core.Types.{Tenant, subdomain}
use fastapi_tenancy.Core.Exceptions.{
  Result, ok, raise, tenant_resolution, host_suffix, host_bare, subdomain_invalid, host_missing,
  ◌>>=◌,
}
use fastapi_tenancy.Utils.Chars.{is_empty, strip, has_char}
use fastapi_tenancy.Utils.Validation.{validate_tenant_identifier}
use fastapi_tenancy.Resolution.Request.{Request, Lookup, or_blank, is_space, before, ends_with}

-- The constructor's self._domain_suffix.
unfoldable pub normalise : Text → Text
normalise suffix =
    if is_empty suffix
    then suffix
    else if starts_with (b'.' ∷ []) suffix
    then suffix
    else b'.' ∷ suffix

abbrev pub hostname_of : (Text → Text) → Text → Text
hostname_of lower host = strip is_space (lower (before b':' host))

unfoldable pub extract_identifier : (Text → Text) → Text → Text → Result Text
extract_identifier lower suffix host =
    let hostname = hostname_of lower host in
    let identifier = before b'.' hostname in
    if not (is_empty suffix) && not (ends_with suffix hostname)
    then raise (tenant_resolution (host_suffix hostname suffix) subdomain)
    else if has_char b'.' hostname
    then (if validate_tenant_identifier identifier
        then ok identifier
        else raise (tenant_resolution (subdomain_invalid identifier) subdomain))
    else raise (tenant_resolution (host_bare hostname) subdomain)

-- The host that resolve reads: X-Forwarded-Host if it is trusted and not empty, else Host.
unfoldable pub host_of : Bool → Request → Text
host_of trust_x_forwarded request =
    let host =
      if trust_x_forwarded then or_blank (request.headers (codes "x-forwarded-host")) else [] in
    if is_empty host then or_blank (request.headers (codes "host")) else host

unfoldable pub resolve : (Text → Text) → Lookup → Text → Bool → Request → Result Tenant
resolve lower get_by_identifier suffix trust_x_forwarded request =
    let host = host_of trust_x_forwarded request in
    if is_empty host
    then raise (tenant_resolution host_missing subdomain)
    else extract_identifier lower suffix host >>= get_by_identifier
