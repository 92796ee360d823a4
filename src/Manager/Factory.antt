-- ===== src/Manager/Factory.antt =====
-- manager.py: _build_resolver, _build_provider and the constructor of TenancyManager; the audit
-- writer is left out. A resolver is what it was built with, and resolve_with runs it.
pub mod Buildable
use fastapi_tenancy.Prelude.{Text, Option, none, some, Bool, true, false, if◌then◌else◌}
use fastapi_tenancy.Core.Types.{
  Tenant, IsolationStrategy, ResolutionStrategy, header, subdomain, path, jwt, custom, schema,
  database, rls, hybrid,
}
use fastapi_tenancy.Core.Exceptions.{Result, ok, raise, Error, configuration, value_error, ◌>>=◌}
use fastapi_tenancy.Core.Config.{TenancyConfig, or_blank}
use fastapi_tenancy.Utils.Chars.{is_empty}
use fastapi_tenancy.Utils.Encryption.{
  Fernet, FromConfig, disabled, missing_key, enabled, from_config,
}
use fastapi_tenancy.Cache.TenantCache as Cache
use fastapi_tenancy.Cache.TenantCache.{TenantCache}
use fastapi_tenancy.Isolation.Hybrid as Hybrid
use fastapi_tenancy.Isolation.Hybrid.{HybridIsolationProvider, Platform, dialect_of}
use fastapi_tenancy.Utils.DbCompat.{supports_native_rls}
use fastapi_tenancy.Resolution.Request.{Request, Lookup}
use fastapi_tenancy.Resolution.Header as Header
use fastapi_tenancy.Resolution.Path as PathResolver
use fastapi_tenancy.Resolution.Subdomain as Subdomain
use fastapi_tenancy.Resolution.Jwt as Jwt
use fastapi_tenancy.Resolution.Jwt.{Decode, JwtTenantResolver}

pub data Resolver : Type 0 where
  header_resolver : Text → Resolver
  subdomain_resolver : Text → Resolver
  path_resolver : Text → Resolver
  jwt_resolver : JwtTenantResolver → Resolver
  custom_resolver : Resolver

-- The JWT resolver is built without an audience.
unfoldable pub build_jwt : TenancyConfig → Result Resolver
build_jwt config =
    if is_empty (or_blank config.jwt_secret)
    then raise configuration
    else ok (
        jwt_resolver (record {
          secret = or_blank config.jwt_secret;
          algorithm = config.jwt_algorithm;
          tenant_claim = config.jwt_tenant_claim;
          audience = none;
        }))

-- The strategy, and whether a custom resolver was passed.
unfoldable pub build_resolver_for : ResolutionStrategy → Bool → TenancyConfig → Result Resolver
unfolding build_jwt
build_resolver_for custom true config = ok custom_resolver
build_resolver_for custom false config = raise configuration
build_resolver_for header has_custom config = ok (header_resolver config.tenant_header_name)
build_resolver_for subdomain has_custom config =
    ok (subdomain_resolver (Subdomain.normalise (or_blank config.domain_suffix)))
build_resolver_for path has_custom config =
    ok (path_resolver (PathResolver.normalise config.path_prefix))
build_resolver_for jwt has_custom config = build_jwt config

unfoldable pub build_resolver : TenancyConfig → Bool → Result Resolver
unfolding build_resolver_for
build_resolver config has_custom = build_resolver_for config.resolution_strategy has_custom config

-- The resolver at work: a custom one is a parameter, as are str.lower and PyJWT.
unfoldable pub resolve_with :
    (Text → Text)
    → Decode
    → (Lookup → Request → Result Tenant)
    → Lookup
    → Resolver
    → Request
    → Result Tenant
resolve_with lower decode other get_by_identifier (header_resolver name) request =
    Header.resolve get_by_identifier name request
resolve_with lower decode other get_by_identifier (subdomain_resolver suffix) request =
    Subdomain.resolve lower get_by_identifier suffix false request
resolve_with lower decode other get_by_identifier (path_resolver prefix) request =
    (PathResolver.resolve get_by_identifier prefix request).0
resolve_with lower decode other get_by_identifier (jwt_resolver r) request =
    Jwt.resolve decode get_by_identifier r request
resolve_with lower decode other get_by_identifier custom_resolver request =
    other get_by_identifier request

pub data IsolationProvider : Type 0 where
  schema_isolation database_isolation rls_isolation : IsolationProvider
  hybrid_isolation : HybridIsolationProvider → IsolationProvider

-- The constructors of the providers create their engine.
abbrev pub with_engine : Platform → TenancyConfig → IsolationProvider → Result IsolationProvider
with_engine platform config p = elim (platform.engine_error config) [
  | some e ↦ raise e
  | none ↦ ok p
]

unfoldable pub build_provider_for :
    Platform → IsolationStrategy → TenancyConfig → Result IsolationProvider
build_provider_for platform schema config = with_engine platform config schema_isolation
build_provider_for platform database config = with_engine platform config database_isolation
build_provider_for platform rls config =
    if supports_native_rls (dialect_of platform config)
    then with_engine platform config rls_isolation
    else raise configuration
build_provider_for platform hybrid config = do
  p ← Hybrid.init platform config
  ok (hybrid_isolation p)

unfoldable pub build_provider : Platform → TenancyConfig → Result IsolationProvider
unfolding build_provider_for
build_provider platform config = build_provider_for platform config.isolation_strategy config

pub record TenancyManager : Type 0 where
  pub config : TenancyConfig
  pub l1_cache : Option TenantCache
  pub resolver : Resolver
  pub isolation_provider : IsolationProvider
  pub encryption : Option Fernet
  pub rate_limiting_enabled : Bool

unfoldable pub build_cache : TenancyConfig → Result (Option TenantCache)
build_cache config =
    if config.cache_enabled
    then (do c ← Cache.init config.l1_cache_max_size config.l1_cache_ttl_seconds; ok (some c))
    else ok none

unfoldable pub encryption_of : FromConfig → Result (Option Fernet)
encryption_of disabled = ok none
encryption_of missing_key = raise value_error
encryption_of (enabled f) = ok (some f)

unfoldable pub build_encryption : (Text → Fernet) → TenancyConfig → Result (Option Fernet)
unfolding encryption_of
build_encryption fernet config =
    encryption_of (from_config fernet config.enable_encryption config.encryption_key)

-- `given` is the isolation provider that was passed, if any.
unfoldable pub build_given :
    Platform → Option IsolationProvider → TenancyConfig → Result IsolationProvider
build_given platform none config = build_provider platform config
build_given platform (some p) config = ok p

unfoldable pub init :
    Platform
    → (Text → Fernet)
    → TenancyConfig
    → Bool
    → Option IsolationProvider
    → Result TenancyManager
init platform fernet config has_custom given = do
  l1 ← build_cache config
  r ← build_resolver config has_custom
  p ← build_given platform given config
  e ← build_encryption fernet config
  ok (record {
    config = config;
    l1_cache = l1;
    resolver = r;
    isolation_provider = p;
    encryption = e;
    rate_limiting_enabled = config.enable_rate_limiting;
  })
