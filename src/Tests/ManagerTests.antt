-- ===== src/Tests/ManagerTests.antt =====
-- The caching proxy.
use fastapi_tenancy.Prelude.{◌≡◌, ◌≤◌, ◌+◌, ◌*◌, refl, text_dec, codes, some, [], arith}
use fastapi_tenancy.Prelude.Dict.{get, put, del, move_to_end}
use fastapi_tenancy.Core.Types.{TenantStatus}
use fastapi_tenancy.Core.Exceptions.{ok}
use fastapi_tenancy.Storage.Memory as Store
use fastapi_tenancy.Storage.Memory.{empty, with_metadata, with_status}
use fastapi_tenancy.Cache.TenantCache as Cache
use fastapi_tenancy.Cache.TenantCache.{TenantCache, second, make_room, unrename, evict_lru, evict}
use fastapi_tenancy.Manager.CachingStore.{CachingStoreProxy, get_by_identifier, create, set_status}
use fastapi_tenancy.Manager.CachingStore.Transparent.{
  Reach, start, next, Call, get_by_identifier-get_by_identifier,
}
use fastapi_tenancy.Tests.Samples.{acme}

abbrev pub new_cache : TenantCache
new_cache = record { max_size = 10; ttl = 60; by_id = []; id_by_ident = []; hits = 0; misses = 0 }

new_cache_built : Cache.init 10 60 ≡ ok new_cache
unfolding Cache.init
new_cache_built = refl

-- One tenant, stored and not cached; then cached by a lookup.
abbrev pub cold : CachingStoreProxy
cold = (create acme (record { store = empty; l1 = new_cache })).1

abbrev pub warm : CachingStoreProxy
warm = (get_by_identifier 1 2 (codes "acme-corp") cold).1

cold-Reach : Reach 10 60 cold
cold-Reach = next (start new_cache new_cache_built) (Call.creates acme)

pub warm-Reach : Reach 10 60 warm
warm-Reach = next cold-Reach (Call.gets 1 2 (codes "acme-corp"))

warm_cached : (Cache.get_by_identifier 3 (codes "acme-corp") warm.l1).0 ≡ some acme
unfolding create get_by_identifier Store.create Store.get_by_identifier Cache.get_by_identifier
    Cache.set Cache.lookup Cache.invalidate evict make_room unrename evict_lru get put del
    move_to_end text_dec
warm_cached = refl

cold_stored : Store.get_by_identifier cold.store (codes "acme-corp") ≡ ok acme
unfolding create Store.create Store.get_by_identifier get put text_dec
cold_stored = refl

cold_fresh : 9 ≤ 2 + (set_status 5 (codes "t1") TenantStatus.suspended cold).1.l1.ttl * second
unfolding create set_status Store.create Store.set_status Cache.invalidate evict get put text_dec
cold_fresh = omega arith

get_by_identifier-get_by_identifier_example :
    ((get_by_identifier 3 4 (codes "acme-corp") warm).0
      ≡ Store.get_by_identifier warm.store (codes "acme-corp"))
    × ((get_by_identifier 3 4 (codes "acme-corp") warm).1.store ≡ warm.store)
get_by_identifier-get_by_identifier_example =
    get_by_identifier-get_by_identifier 3 4 (codes "acme-corp") warm warm-Reach
