-- ===== src/Manager/Metrics.antt =====
-- manager.py: get_metrics, over the first-level cache and, where the provider is a
-- DatabaseIsolationProvider, its cache of engines.
use fastapi_tenancy.Prelude.{ℕ, Option, length, Bool}
use fastapi_tenancy.Core.Config.{TenancyConfig}
use fastapi_tenancy.Cache.TenantCache.{TenantCache, hit_rate_pct}
use fastapi_tenancy.Isolation.Engines.{LruEngineCache}
use mathlib.Core.Option as Option

-- What TenantCache.stats returns.
pub record Stats : Type 0 where
  pub size : ℕ
  pub max_size : ℕ
  pub ttl : ℕ
  pub hits : ℕ
  pub misses : ℕ
  pub hit_rate : ℕ

unfoldable pub stats : TenantCache → Stats
stats c = record {
  size = length c.by_id;
  max_size = c.max_size;
  ttl = c.ttl;
  hits = c.hits;
  misses = c.misses;
  hit_rate = hit_rate_pct c;
}

pub record Metrics : Type 0 where
  pub metrics_enabled : Bool
  pub l1_cache : Option Stats
  pub engine_cache_size : Option ℕ

abbrev pub engine_count : LruEngineCache → ℕ
engine_count c = length c.cache

unfoldable pub get_metrics : TenancyConfig → Option TenantCache → Option LruEngineCache → Metrics
unfolding stats
get_metrics config l1_cache engine_cache = record {
  metrics_enabled = config.enable_metrics;
  l1_cache = Option.map stats l1_cache;
  engine_cache_size = Option.map engine_count engine_cache;
}
