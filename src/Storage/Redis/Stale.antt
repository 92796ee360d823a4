-- ===== src/Storage/Redis/Stale.antt =====
-- storage/redis.py: bulk_update_status when Redis takes nothing.
use fastapi_tenancy.Prelude.{◌≡◌, refl, ℕ, some, List, [], ◌∷◌, false, arith}
use fastapi_tenancy.Prelude.Dict.{get, get-put}
use fastapi_tenancy.Core.Types.{Tenant, TenantStatus}
use fastapi_tenancy.Core.Exceptions.{ok}
use fastapi_tenancy.Storage.Memory as Store
use fastapi_tenancy.Storage.Memory.{bulk_loop, with_status, subscript}
use fastapi_tenancy.Storage.Redis.{
  Codec, Moment, RedisTenantStore, slug_key, read, cache_set, get_by_identifier,
}
use fastapi_tenancy.Storage.Redis.Batch.{cache_all, bulk_update_status}
use fastapi_tenancy.Storage.Redis.Coherent.{IsCoherent}

module _ {B : Type 0} where
  cache_all-refused :
      (c : Codec B) (m : Moment) (ts : List Tenant) (r : RedisTenantStore B)
      → ((t : Tenant) → m.accepts t ≡ false)
      → cache_all c m ts r ≡ r
  unfolding cache_all cache_set
  cache_all-refused c m [] r refuses = refl
  cache_all-refused c m (t ∷ ts) r refuses = rw (refuses t) (cache_all-refused c m ts r refuses)

  -- bulk_update_status does not remove the entries of the tenants: where Redis fails to take the new
  -- ones, a tenant that was cached is still read with its old status by identifier, while the primary
  -- store has the new one.
  pub bulk_update_status_stale :
      (c : Codec B) (m n : Moment) (stamp : ℕ) (st : TenantStatus) (t : Tenant) (blob : B)
      (r : RedisTenantStore B)
      → IsCoherent c r
      → get t.id r.primary.tenants ≡ some t
      → read n.now (slug_key r.prefix t.identifier) r.entries ≡ some blob
      → c.deserialize blob ≡ some t
      → ((u : Tenant) → m.accepts u ≡ false)
      → ((get_by_identifier c n t.identifier (bulk_update_status c m stamp (t.id ∷ []) st r).1).0
          ≡ ok t)
        × (Store.get_by_identifier
              (bulk_update_status c m stamp (t.id ∷ []) st r).1.primary
              t.identifier
            ≡ ok (with_status st stamp t))
  unfolding bulk_update_status get_by_identifier Store.bulk_update_status bulk_loop
      Store.get_by_identifier subscript
  bulk_update_status_stale c m n stamp st t blob r v held cached decodes refuses =
      let (updated, s) = Store.bulk_update_status stamp (t.id ∷ []) st r.primary in
      let unchanged = cache_all-refused c m updated (record r { primary = s }) refuses in
      (
        rw (unchanged, get_by_identifier) (ground (arith, cached, decodes)),
        rw unchanged (
            ground (
              arith,
              held,
              v.consistent.indexed t.id t held,
              get-put t.id t.id (with_status st stamp t) r.primary.tenants,
            )),
      )
