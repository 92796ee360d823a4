-- ===== src/Tests/LifecycleTests.antt =====
-- The manager: its construction, its rate limit and the life cycle of tenants.
use fastapi_tenancy.Prelude.{
  ◌≡◌, text_dec, ◌≢◌, ℕ, Text, codes, none, some, List, [], ◌∷◌, true, false, refl, map,
}
use fastapi_tenancy.Core.Types.{Tenant, TenantStatus, schema, rls, hybrid}
use fastapi_tenancy.Core.Exceptions.{ok}
use fastapi_tenancy.Core.Config.{TenancyConfig}
use fastapi_tenancy.Manager.RateLimit.{RateLimiter}
use fastapi_tenancy.Manager.RateLimit.Window.{replies}
use fastapi_tenancy.Manager.RateLimit.Enforcement.{replies-ok}
use fastapi_tenancy.Manager.Factory.{TenancyManager}
use fastapi_tenancy.Utils.Encryption.{Fernet}
use fastapi_tenancy.Core.Context.{Context}
use fastapi_tenancy.Storage.Memory.{MemoryStore, empty}
use fastapi_tenancy.Storage.Memory as Store
use fastapi_tenancy.Storage.Contract.{IsStore, reliable-IsStore}
use fastapi_tenancy.Storage.Memory.Stored.{memory, memory-IsReliable}
use fastapi_tenancy.Isolation.Hybrid.{Platform}
use fastapi_tenancy.Manager.Factory.{header_resolver, schema_isolation}
use fastapi_tenancy.Manager.Tenants.{Isolation, World, Request, Draw, suspend_tenant}
use fastapi_tenancy.Prelude.Dict.{get, put}
use fastapi_tenancy.Cache.TenantCache as Cache
use fastapi_tenancy.Cache.TenantCache.{evict}
use fastapi_tenancy.Manager.CachingStore as CachingStore
use fastapi_tenancy.Manager.CachingStore.{CachingStoreProxy, get_by_identifier}
use fastapi_tenancy.Manager.CachingStore.Stored.{caching}
use fastapi_tenancy.Middleware.Tenancy.{Manager, Scope, App, handle, refuse, not_active, http}
use fastapi_tenancy.Middleware.Tenancy.Suspended.{suspend_tenant-refused}
use fastapi_tenancy.Tests.ManagerTests.{warm, warm-Reach}
use fastapi_tenancy.Tests.Samples.{acme, two_tenants, sample_config}

-- One request a minute, and three at once.
abbrev strict : RateLimiter
strict = record {
  rate_limiting_enabled = true;
  has_rate_limiter = true;
  rate_limit_per_minute = 1;
  rate_limit_fail_closed = false;
}

abbrev burst : List (ℕ × Text)
burst = (5, codes "a") ∷ (6, codes "b") ∷ (7, codes "c") ∷ []

replies-ok_example :
    replies strict 60 acme burst (record { members = []; expires_at = none })
    ≡ map (λ _. ok tt) burst
replies-ok_example = replies-ok strict 60 acme burst

abbrev plain_fernet : Text → Fernet
plain_fernet key = record { encrypt = λ n s. s; decrypt = λ s. some s }

abbrev validated : TenancyConfig
validated = record sample_config { database_url = codes "postgresql+asyncpg://db/app" }

schema_ne : schema ≢ hybrid
schema_ne = λ e. cc

rls_ne : rls ≢ hybrid
rls_ne = λ e. cc

-- Every engine can be created.
abbrev platform : Platform
platform = record { lower = λ s. s; trim = λ s. s; engine_error = λ _. none }

-- A provider whose namespaces are a list of ids.
abbrev listing : Isolation (List Text)
listing = record {
  initialize_tenant = λ t d. (ok tt, t.id ∷ d);
  destroy_tenant = λ t d. (ok tt, []);
}

abbrev memory_store : IsStore memory
memory_store = reliable-IsStore memory-IsReliable

abbrev manager : TenancyManager
manager = record {
  config = sample_config;
  l1_cache = none;
  resolver = header_resolver (codes "X-Tenant-ID");
  isolation_provider = schema_isolation;
  encryption = some (plain_fernet []);
  rate_limiting_enabled = false;
}

abbrev draw : Draw
draw = record { now = 10; tenant_id = codes "t1"; nonce = 3 }

abbrev request : Request
request = record {
  identifier = codes "acme-corp";
  name = codes "Acme";
  metadata = [];
  isolation_strategy = none;
}

abbrev bare : World MemoryStore (List Text)
bare = record { records = empty; namespaces = [] }

abbrev filled : World MemoryStore (List Text)
filled = record { records = two_tenants; namespaces = codes "t1" ∷ [] }

-- A manager whose resolver reads the warm proxy after acme was suspended.
abbrev acme_suspended : CachingStoreProxy
acme_suspended = (suspend_tenant caching 5 (codes "t1") warm).1

abbrev suspended_acme : Tenant
suspended_acme = record acme { status = TenantStatus.suspended; updated_at = 5 }

abbrev front : Manager
front = record {
  resolve = λ _. (get_by_identifier 6 7 suspended_acme.identifier acme_suspended).0;
  eval = λ _. none;
  limiter = strict;
  enable_rate_limiting = false;
  rate_limit_window_seconds = 60;
}

abbrev connection : Scope
connection = record {
  scope_type = http;
  path = codes "/orders";
  headers = λ _. none;
  state_tenant = none;
}

abbrev nowhere : Context
nowhere = record { tenant = none; metadata = none }

abbrev silent : App
silent s c = record { sent = []; raised = none; context = c }

acme_suspends : (suspend_tenant caching 5 (codes "t1") warm).0 ≡ ok suspended_acme
unfolding suspend_tenant CachingStore.set_status Store.set_status get get_by_identifier
    Cache.get_by_identifier CachingStore.create Store.create Cache.invalidate evict
    Store.get_by_identifier put text_dec
acme_suspends = refl

suspend_tenant-refused_example :
    handle front silent connection nowhere
    ≡ refuse connection nowhere 403 (not_active suspended_acme) none
suspend_tenant-refused_example =
    suspend_tenant-refused front silent connection nowhere 6 7 5 10 60 (codes "t1") warm
      suspended_acme warm-Reach acme_suspends refl
