-- ===== src/Tests/ResolutionTests.antt =====
-- The resolvers.
use fastapi_tenancy.Prelude.{
  ◌≡◌, ◌↔◌, refl, Text, text_eq, text_dec, codes, none, some, [], arith, starts_with, if◌then◌else◌,
}
use fastapi_tenancy.Core.Types.{str}
use fastapi_tenancy.Core.Exceptions.{ok, raise, Error, tenant_not_found}
use fastapi_tenancy.Utils.Chars.{is_lower, is_slug_char, strip, lstrip, rstrip}
use fastapi_tenancy.Utils.Validation.{validate_tenant_identifier}
use fastapi_tenancy.Resolution.Request.{Request, Lookup, is_space, before}
use fastapi_tenancy.Resolution.Header as Header
use fastapi_tenancy.Resolution.Header.{refused, identifier_of, hide}
use fastapi_tenancy.Resolution.Header.Uniform.{resolve-uniform}
use fastapi_tenancy.Resolution.Path as PathResolver
use fastapi_tenancy.Resolution.Path.{resolve_remainder}
use fastapi_tenancy.Resolution.Path.Segments.{with_rest, resolve-Names, resolve-ok}
use fastapi_tenancy.Resolution.Path.Segments as Segments
use fastapi_tenancy.Resolution.Jwt as Jwt
use fastapi_tenancy.Resolution.Jwt.{Decode, Decoded, payload, invalid_token, JwtTenantResolver}
use fastapi_tenancy.Resolution.Jwt.Trust.{Carries, resolve_jwt_iff}
use fastapi_tenancy.Tests.Samples.{acme}

-- A store with one tenant.
stored : Lookup
stored i = if text_eq i (codes "acme-corp") then ok acme else raise (tenant_not_found (some i))

stored-only : (i : Text) (f : Error) → stored i ≡ raise f → f ≡ tenant_not_found (some i)
unfolding stored
stored-only i f h = ground arith

-- A request whose every header has one value.
abbrev request : Text → Text → Request
request value path = record { headers = λ _. some value; path = path; tenant_path_remainder = none }

abbrev unknown : Request
unknown = request (codes "nobody") (codes "/")

abbrev orders : Request
orders = request [] (codes "/tenants/acme-corp/orders")

refuses_unknown : Header.resolve stored (codes "X-Tenant-ID") unknown ≡ raise refused
unfolding Header.resolve stored hide validate_tenant_identifier is_lower is_slug_char text_dec strip
    lstrip rstrip is_space
refuses_unknown = refl

orders-Names : Segments.Names (codes "/tenants") (codes "acme-corp") (codes "/orders") orders
unfolding validate_tenant_identifier is_lower is_slug_char rstrip
orders-Names = record { split = refl; segment = refl; valid = refl }

orders_resolve :
    PathResolver.resolve stored (codes "/tenants") orders
    ≡ (ok acme, with_rest (codes "/orders") orders)
unfolding PathResolver.resolve resolve_remainder stored validate_tenant_identifier is_lower
    is_slug_char text_dec rstrip starts_with before
orders_resolve = refl

-- PyJWT that accepts one token, whose tenant claim names the tenant.
decode : Decode
decode token secret algorithm audience =
    if text_eq token (codes "a.b.c")
    then payload (λ _. some (str (codes "acme-corp")))
    else invalid_token

abbrev verifier : JwtTenantResolver
verifier = record {
  secret = codes "key";
  algorithm = codes "HS256";
  tenant_claim = codes "tenant_id";
  audience = none;
}

abbrev bearing : Request
bearing = request (codes "Bearer a.b.c") (codes "/")

resolve_jwt_iff_example :
    (Jwt.resolve decode stored verifier bearing ≡ ok acme)
    ↔ ((i : Text) × Carries decode verifier bearing i × (stored i ≡ ok acme))
resolve_jwt_iff_example = resolve_jwt_iff decode stored verifier bearing acme

resolve-uniform_example : refused ≡ refused
resolve-uniform_example =
    resolve-uniform stored (codes "X-Tenant-ID") unknown refused stored-only refuses_unknown

abbrev forged : Request
forged = record (request (codes "acme.example.com") (codes "/")) { tenant_path_remainder = some [] }
