-- ===== src/Core/Config.antt =====
-- core/config.py: TenancyConfig and its helper methods. The set of premium tenants that validation builds is the list.
pub mod Printing
pub mod Schema
pub mod Validation
use fastapi_tenancy.Prelude.{
  ℕ, Text, codes, List, [], ◌∷◌, ◌++◌, Option, none, some, Bool, true, false, contains,
  if◌then◌else◌,
}
use fastapi_tenancy.Core.Types.{
  IsolationStrategy, schema, database, rls, hybrid, ResolutionStrategy, TenantStatus,
}
use fastapi_tenancy.Core.Exceptions.{Result, ok, raise, value_error}
use fastapi_tenancy.Utils.Chars.{is_empty, replace}
use fastapi_tenancy.Utils.Validation.{validate_tenant_identifier}

pub record TenancyConfig : Type 0 where
  pub resolution_strategy : ResolutionStrategy
  pub isolation_strategy : IsolationStrategy
  pub database_url : Text
  pub database_pool_size : ℕ
  pub database_max_overflow : ℕ
  pub database_pool_timeout : ℕ
  pub database_pool_recycle : ℕ
  pub database_pool_pre_ping : Bool
  pub database_echo : Bool
  pub database_url_template : Option Text
  pub max_cached_engines : ℕ
  pub redis_url : Option Text
  pub cache_ttl : ℕ
  pub cache_enabled : Bool
  pub l1_cache_max_size : ℕ
  pub l1_cache_ttl_seconds : ℕ
  pub enable_rate_limiting : Bool
  pub rate_limit_per_minute : ℕ
  pub rate_limit_window_seconds : ℕ
  pub rate_limit_fail_closed : Bool
  pub tenant_header_name : Text
  pub domain_suffix : Option Text
  pub path_prefix : Text
  pub jwt_secret : Option Text
  pub jwt_algorithm : Text
  pub jwt_tenant_claim : Text
  pub enable_audit_logging : Bool
  pub enable_encryption : Bool
  pub encryption_key : Option Text
  pub allow_tenant_registration : Bool
  pub max_tenants : Option ℕ
  pub default_tenant_status : TenantStatus
  pub enable_soft_delete : Bool
  pub enable_query_logging : Bool
  pub slow_query_threshold_ms : ℕ
  pub enable_metrics : Bool
  pub premium_tenants : List Text
  pub premium_isolation_strategy : IsolationStrategy
  pub standard_isolation_strategy : IsolationStrategy
  pub schema_prefix : Text
  pub public_schema : Text

unfoldable pub strategy_eq : IsolationStrategy → IsolationStrategy → Bool
strategy_eq schema schema = true
strategy_eq database database = true
strategy_eq rls rls = true
strategy_eq hybrid hybrid = true
strategy_eq _ _ = false

unfoldable pub get_schema_name : TenancyConfig → Text → Result Text
get_schema_name config identifier =
    if validate_tenant_identifier identifier
    then ok (config.schema_prefix ++ replace b'.' b'_' (replace b'-' b'_' identifier))
    else raise value_error

-- An unset text and an empty one are the same to a truth test.
abbrev pub or_blank : Option Text → Text
or_blank none = []
or_blank (some s) = s

-- str.lower and str.format (a template, the tenant's id and the name of its database) are
-- parameters.
unfoldable pub get_database_url_for_tenant :
    (Text → Text) → (Text → Text → Text → Text) → TenancyConfig → Text → Text
get_database_url_for_tenant lower format config tenant_id =
    let template = or_blank config.database_url_template in
    let db_name = lower (replace b'.' b'_' (replace b'-' b'_' tenant_id)) in
    if is_empty template
    then config.database_url
    else format template tenant_id (codes "tenant_" ++ (db_name ++ codes "_db"))

unfoldable pub is_premium_tenant : TenancyConfig → Text → Bool
unfolding contains
is_premium_tenant config tenant_id = contains config.premium_tenants tenant_id

unfoldable pub get_isolation_strategy_for_tenant : TenancyConfig → Text → IsolationStrategy
unfolding is_premium_tenant
get_isolation_strategy_for_tenant config tenant_id =
    if strategy_eq config.isolation_strategy hybrid
    then (if is_premium_tenant config tenant_id
        then config.premium_isolation_strategy
        else config.standard_isolation_strategy)
    else config.isolation_strategy
