-- ===== src/Storage/Redis/Batch.antt =====
-- storage/redis.py: the batch methods and the management of the cache.
use fastapi_tenancy.Prelude.{
  ℕ, Text, codes, starts_with, none, some, List, [], ◌∷◌, ◌++◌, Bool, ltb, ◌&&◌, keep, length, not,
}
use fastapi_tenancy.Prelude.Dict.{Dict, get, put}
use fastapi_tenancy.Core.Types.{Tenant, TenantStatus}
use fastapi_tenancy.Storage.Memory as Store
use fastapi_tenancy.Storage.Redis.{
  Codec, Entry, Moment, RedisTenantStore, cache_set, get_old_tenant,
}

unfoldable pub add_all : List Tenant → Dict Tenant → Dict Tenant
add_all [] tenant_map = tenant_map
add_all (t ∷ ts) tenant_map = add_all ts (put t.id t tenant_map)

-- [tenant_map[tid] for tid in ids if tid in tenant_map]
unfoldable pub pick : List Text → Dict Tenant → List Tenant
pick [] tenant_map = []
pick (tid ∷ ids) tenant_map =
    let rest = pick ids tenant_map in elim (get tid tenant_map) [ none ↦ rest | some t ↦ t ∷ rest ]

module _ {B : Type 0} where
  -- The loop over the answers of the pipeline of GETs: the tenants that were cached, and the ids that
  -- were not, in their order.
  unfoldable pub split_hits :
      Codec B → Moment → List Text → RedisTenantStore B → Dict Tenant → Dict Tenant × List Text
  unfolding get_old_tenant
  split_hits c m [] r tenant_map = (tenant_map, [])
  split_hits c m (tid ∷ ids) r tenant_map = elim (get_old_tenant c m tid r) [
    | some t ↦ split_hits c m ids r (put tid t tenant_map)
    | none ↦ let (hits, misses) = split_hits c m ids r tenant_map in (hits, tid ∷ misses)
  ]

  unfoldable pub cache_all :
      Codec B → Moment → List Tenant → RedisTenantStore B → RedisTenantStore B
  unfolding cache_set
  cache_all c m [] r = r
  cache_all c m (t ∷ ts) r = cache_all c m ts (cache_set c m t r)

  unfoldable pub get_by_ids :
      Codec B → Moment → List Text → RedisTenantStore B → List Tenant × RedisTenantStore B
  unfolding split_hits cache_all add_all pick
  get_by_ids c m ids r =
      let (hits, misses) = split_hits c m ids r [] in
      let found = Store.get_by_ids r.primary misses in
      (pick ids (add_all found hits), cache_all c m found r)

  unfoldable pub bulk_update_status :
      Codec B
      → Moment
      → ℕ
      → List Text
      → TenantStatus
      → RedisTenantStore B
      → List Tenant × RedisTenantStore B
  unfolding cache_all
  bulk_update_status c m stamp ids status r =
      let (updated, s) = Store.bulk_update_status stamp ids status r.primary in
      (updated, cache_all c m updated (record r { primary = s }))

  -- The keys that SCAN finds: those of live entries under the prefix, which has no special character.
  abbrev pub owned : ℕ → RedisTenantStore B → Text × Entry B → Bool
  owned now r e = ltb now e.1.expires_at && starts_with (r.prefix ++ codes ":") e.0

  unfoldable pub invalidate_all : Moment → RedisTenantStore B → ℕ × RedisTenantStore B
  invalidate_all m r = (
    length (keep (owned m.now r) r.entries),
    record r { entries = keep (λ e. not (owned m.now r e)) r.entries },
  )

  -- total_keys of cache_stats
  unfoldable pub total_keys : Moment → RedisTenantStore B → ℕ
  total_keys m r = length (keep (owned m.now r) r.entries)
