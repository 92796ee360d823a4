-- ===== src/Isolation/Hybrid.antt =====
-- isolation/hybrid.py: which inner provider serves a tenant.
pub mod Routing
pub mod Delegation
use fastapi_tenancy.Prelude.{Text, Option, none, some, if◌then◌else◌}
use fastapi_tenancy.Core.Types.{Tenant, IsolationStrategy, schema, database, rls, hybrid}
use fastapi_tenancy.Core.Config.{TenancyConfig, strategy_eq, get_isolation_strategy_for_tenant}
use fastapi_tenancy.Core.Exceptions.{Result, ok, raise, Error, isolation, configuration, ◌>>=◌}
use fastapi_tenancy.Utils.DbCompat.{DbDialect, detect_dialect, supports_native_rls}

-- The class of an inner provider.
pub data Provider : Type 0 where
  schema_provider database_provider rls_provider : Provider

pub record HybridIsolationProvider : Type 0 where
  pub config : TenancyConfig
  pub premium_provider : Provider
  pub standard_provider : Provider

-- str.lower, str.strip, and what create_async_engine raises for a configuration, if it does.
pub record Platform : Type 0 where
  pub lower : Text → Text
  pub trim : Text → Text
  pub engine_error : TenancyConfig → Option Error

abbrev pub dialect_of : Platform → TenancyConfig → DbDialect
dialect_of platform config = detect_dialect platform.lower platform.trim config.database_url

-- The constructor of the provider for rows refuses every dialect but PostgreSQL.
unfoldable pub build_provider : DbDialect → IsolationStrategy → Result Provider
build_provider dialect schema = ok schema_provider
build_provider dialect database = ok database_provider
build_provider dialect rls =
    if supports_native_rls dialect then ok rls_provider else raise configuration
build_provider dialect hybrid = raise configuration

-- The inner providers get the shared engine.
unfoldable pub build_inner : DbDialect → TenancyConfig → Result HybridIsolationProvider
unfolding build_provider
build_inner dialect config = do
  premium ← build_provider dialect config.premium_isolation_strategy
  standard ← build_provider dialect config.standard_isolation_strategy
  ok (record { config = config; premium_provider = premium; standard_provider = standard })

-- The constructor.
unfoldable pub init : Platform → TenancyConfig → Result HybridIsolationProvider
unfolding build_inner
init platform config =
    if strategy_eq config.isolation_strategy hybrid
    then elim (platform.engine_error config) [
      | some e ↦ raise e
      | none ↦ build_inner (dialect_of platform config) config
    ]
    else raise configuration

-- tenant.isolation_strategy, when it is set
unfoldable pub override_for : HybridIsolationProvider → IsolationStrategy → Result Provider
override_for p override =
    if strategy_eq override p.config.premium_isolation_strategy
    then ok p.premium_provider
    else if strategy_eq override p.config.standard_isolation_strategy
    then ok p.standard_provider
    else raise isolation

unfoldable pub provider_for : HybridIsolationProvider → Tenant → Result Provider
provider_for p tenant = elim tenant.isolation_strategy [
  | some override ↦ override_for p override
  | none ↦ ok (
      if strategy_eq (get_isolation_strategy_for_tenant p.config tenant.id)
        p.config.premium_isolation_strategy
      then p.premium_provider
      else p.standard_provider)
]
