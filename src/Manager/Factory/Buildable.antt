-- ===== src/Manager/Factory/Buildable.antt =====
-- manager.py: the constructor of the manager on a validated configuration.
use fastapi_tenancy.Prelude.{◌≡◌, true}
use fastapi_tenancy.Core.Types.{IsolationStrategy, schema, database, rls, hybrid}
use fastapi_tenancy.Core.Exceptions.{Result, ok}
use fastapi_tenancy.Core.Config.{TenancyConfig}
use fastapi_tenancy.Cache.TenantCache as Cache
use fastapi_tenancy.Cache.TenantCache.{TenantCache}
use fastapi_tenancy.Isolation.Hybrid as Hybrid
use fastapi_tenancy.Isolation.Hybrid.{HybridIsolationProvider}
use fastapi_tenancy.Utils.DbCompat.{DbDialect, supports_native_rls}

-- A value, and not an error.
abbrev IsOk : {A : Type 0} → Result A → Type 0
IsOk {A} r = (a : A) × (r ≡ ok a)

-- A strategy that has a provider on the dialect, and is not hybrid.
abbrev pub Supports : DbDialect → IsolationStrategy → Type 0
Supports d schema = Unit
Supports d database = Unit
Supports d rls = supports_native_rls d ≡ true
Supports d hybrid = ⊥

abbrev pub SupportsFor : DbDialect → TenancyConfig → IsolationStrategy → Type 0
SupportsFor d c hybrid =
    Supports d c.premium_isolation_strategy × Supports d c.standard_isolation_strategy
SupportsFor d c k = Supports d k
