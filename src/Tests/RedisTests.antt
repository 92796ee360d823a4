-- ===== src/Tests/RedisTests.antt =====
-- The Redis store.
use fastapi_tenancy.Prelude.{◌≡◌, refl, text_dec, codes, some, [], ◌∷◌, true, false}
use fastapi_tenancy.Prelude.Dict.{get, put}
use fastapi_tenancy.Core.Types.{Tenant, TenantStatus}
use fastapi_tenancy.Core.Exceptions.{ok}
use fastapi_tenancy.Storage.Memory as Store
use fastapi_tenancy.Storage.Memory.{empty, with_status}
use fastapi_tenancy.Storage.Memory.Consistent.{empty-IsConsistent, create-IsConsistent}
use fastapi_tenancy.Storage.Redis.{
  Codec, Moment, RedisTenantStore, get_by_id, get_by_identifier, id_key, slug_key, read, cache_set,
  fetched, get_old_tenant,
}
use fastapi_tenancy.Storage.Redis.Batch.{bulk_update_status}
use fastapi_tenancy.Storage.Redis.Coherent.{Decodes}
use fastapi_tenancy.Storage.Redis.Transparent.{Reach, start, next, Call, Reach-IsCoherent}
use fastapi_tenancy.Storage.Redis.Stale.{bulk_update_status_stale}
use fastapi_tenancy.Tests.Samples.{acme, globex, two_tenants}

-- Entries that hold the tenants themselves.
abbrev plain : Codec Tenant
plain = record { serialize = λ t. t; deserialize = λ t. some t }

plain-Decodes : Decodes plain
plain-Decodes t = refl

abbrev up : Moment
up = record { now = 1; later = 2; accepts = λ _. true }

abbrev down : Moment
down = record { now = 3; later = 4; accepts = λ _. false }

abbrev cold : RedisTenantStore Tenant
cold = record { primary = two_tenants; entries = []; ttl = 60; prefix = codes "tenant" }

abbrev warm : RedisTenantStore Tenant
warm = (get_by_id plain up (codes "t1") cold).1

warm-Reach : Reach plain warm
warm-Reach =
    next
      (start two_tenants 60 (codes "tenant")
        (create-IsConsistent globex (create-IsConsistent acme empty-IsConsistent)))
      (Call.gets_by_id up (codes "t1"))

warm_holds : get (codes "t1") warm.primary.tenants ≡ some acme
unfolding get_by_id get_old_tenant read fetched cache_set Store.get_by_id Store.create get put
    text_dec id_key slug_key
warm_holds = refl

warm_cached : read down.now (slug_key warm.prefix acme.identifier) warm.entries ≡ some acme
unfolding get_by_id get_old_tenant read fetched cache_set Store.get_by_id Store.create get put
    text_dec id_key slug_key
warm_cached = refl

bulk_update_status_stale_example :
    ((get_by_identifier plain down
        (codes "acme-corp")
        (bulk_update_status plain down 5 (codes "t1" ∷ []) TenantStatus.suspended warm).1).0
      ≡ ok acme)
    × (Store.get_by_identifier
          (bulk_update_status plain down 5 (codes "t1" ∷ []) TenantStatus.suspended warm).1.primary
          (codes "acme-corp")
        ≡ ok (with_status TenantStatus.suspended 5 acme))
bulk_update_status_stale_example =
    bulk_update_status_stale plain down down 5 TenantStatus.suspended acme acme warm
      (Reach-IsCoherent plain-Decodes warm-Reach) warm_holds warm_cached refl (λ u. refl)
