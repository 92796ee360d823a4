-- ===== src/Dependencies/Settings.antt =====
-- dependencies.py: the configuration that get_tenant_config gives.
use fastapi_tenancy.Prelude.{[], ℕ, ◌≡◌, ◌≤◌, codes, Option, none, some, arith}
use fastapi_tenancy.Prelude.Dict.{get}
use fastapi_tenancy.Core.Types.{Tenant, TenantConfig, Json}
use fastapi_tenancy.Core.Exceptions.{ok, bind-ok, ◌>>=◌}
use fastapi_tenancy.Dependencies.{
  Parser, model_validate, get_tenant_config, quota, valid, or_default, rate_limit,
}

rate_limit-bounds :
    (p : Parser) (v : Option Json) (n : ℕ)
    → or_default 100 (λ v. valid (p.int v) >>= rate_limit) v ≡ ok n
    → (1 ≤ n) × (n ≤ 10000)
rate_limit-bounds p none n h = ground (arith, h)
rate_limit-bounds p (some v) n h =
    let ((negative, m), e, f) = bind-ok (valid (p.int v)) rate_limit h in ground (arith, f)

-- A configuration that get_tenant_config gives has a rate limit from 1 to 10000.
pub get_tenant_config-bounds :
    (p : Parser) (t : Tenant) (c : TenantConfig)
    → get_tenant_config p t ≡ ok c
    → (1 ≤ c.rate_limit_per_minute) × (c.rate_limit_per_minute ≤ 10000)
unfolding get_tenant_config model_validate
get_tenant_config-bounds p t c h =
    let d = t.metadata in
    let (users, h0, h1) = bind-ok (quota p (get (codes "max_users") d)) _ h in
    let (storage, h2, h3) = bind-ok (quota p (get (codes "max_storage_gb") d)) _ h1 in
    let (features, h4, h5) =
      bind-ok (or_default [] (λ v. valid (p.texts v)) (get (codes "features_enabled") d)) _ h3 in
    let (rate, h6, h7) =
      bind-ok
        (or_default 100 (λ v. valid (p.int v) >>= rate_limit)
          (get (codes "rate_limit_per_minute") d))
        _ h5 in
    let (settings, h8, h9) =
      bind-ok (or_default [] (λ v. valid (p.fields v)) (get (codes "custom_settings") d)) _ h7 in
    ground (arith, h9, rate_limit-bounds p (get (codes "rate_limit_per_minute") d) rate h6)
