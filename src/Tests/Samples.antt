-- ===== src/Tests/Samples.antt =====
-- Tenants and stores for the tests.
use fastapi_tenancy.Prelude.{true, false, some, codes, none, [], ◌∷◌}
use fastapi_tenancy.Core.Types.{Tenant, TenantStatus, hybrid, schema, rls, jwt}
use fastapi_tenancy.Core.Config.{TenancyConfig}
use fastapi_tenancy.Storage.Memory.{MemoryStore, empty, create}

abbrev pub acme : Tenant
acme = record {
  id = codes "t1";
  identifier = codes "acme-corp";
  name = codes "Acme";
  status = TenantStatus.active;
  isolation_strategy = none;
  metadata = [];
  created_at = 10;
  updated_at = 10;
  database_url = none;
  schema_name = none;
}

abbrev pub globex : Tenant
globex = record acme {
  id = codes "t2";
  identifier = codes "globex";
  name = codes "Globex";
  status = TenantStatus.suspended;
  created_at = 20;
}

-- Both tenants, in the order of their creation.
abbrev pub two_tenants : MemoryStore
two_tenants = (create globex (create acme empty).1).1

abbrev pub sample_config : TenancyConfig
sample_config = record {
  resolution_strategy = jwt;
  isolation_strategy = hybrid;
  database_url = codes "postgresql+asyncpg://db/app/";
  database_pool_size = 20;
  database_max_overflow = 40;
  database_pool_timeout = 30;
  database_pool_recycle = 3600;
  database_pool_pre_ping = true;
  database_echo = false;
  database_url_template = none;
  max_cached_engines = 100;
  redis_url = some (codes "redis://cache");
  cache_ttl = 3600;
  cache_enabled = true;
  l1_cache_max_size = 1000;
  l1_cache_ttl_seconds = 60;
  enable_rate_limiting = true;
  rate_limit_per_minute = 100;
  rate_limit_window_seconds = 60;
  rate_limit_fail_closed = false;
  tenant_header_name = codes "X-Tenant-ID";
  domain_suffix = none;
  path_prefix = codes "/tenants";
  jwt_secret = some (codes "0123456789abcdef0123456789abcdef");
  jwt_algorithm = codes "HS256";
  jwt_tenant_claim = codes "tenant_id";
  enable_audit_logging = true;
  enable_encryption = true;
  encryption_key = some (codes "0123456789abcdef0123456789abcdef");
  allow_tenant_registration = false;
  max_tenants = none;
  default_tenant_status = TenantStatus.active;
  enable_soft_delete = true;
  enable_query_logging = false;
  slow_query_threshold_ms = 1000;
  enable_metrics = true;
  premium_tenants = codes "t1" ∷ [];
  premium_isolation_strategy = schema;
  standard_isolation_strategy = rls;
  schema_prefix = codes "tenant_";
  public_schema = codes "public";
}
