-- ===== src/Resolution/Header.antt =====
-- resolution/header.py: HeaderTenantResolver.resolve.
pub mod Uniform
use fastapi_tenancy.Prelude.{Text, if◌then◌else◌}
use fastapi_tenancy.Core.Types.{Tenant, header}
use fastapi_tenancy.Core.Exceptions.{
  Result, ok, raise, Error, tenant_not_found, tenant_resolution, generic,
}
use fastapi_tenancy.Utils.Chars.{is_empty, strip}
use fastapi_tenancy.Utils.Validation.{validate_tenant_identifier}
use fastapi_tenancy.Resolution.Request.{Request, Lookup, or_blank, is_space}

abbrev pub refused : Error
refused = tenant_resolution generic header

-- except TenantNotFoundError
unfoldable pub hide : Result Tenant → Result Tenant
hide (ok t) = ok t
hide (raise (tenant_not_found i)) = raise refused
hide (raise e) = raise e

abbrev pub identifier_of : Text → Request → Text
identifier_of header_name request = strip is_space (or_blank (request.headers header_name))

unfoldable pub resolve : Lookup → Text → Request → Result Tenant
resolve get_by_identifier header_name request =
    let identifier = identifier_of header_name request in
    if is_empty identifier
    then raise refused
    else if validate_tenant_identifier identifier
    then hide (get_by_identifier identifier)
    else raise refused
