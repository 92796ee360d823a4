-- ===== src/Tests/CacheTests.antt =====
-- The tenant cache.
use fastapi_tenancy.Prelude.{◌≡◌, ◌≤◌, refl, text_dec, codes, none, some, [], ◌∷◌, length}
use fastapi_tenancy.Prelude.Dict.{get, put, del, move_to_end}
use fastapi_tenancy.Core.Exceptions.{ok}
use fastapi_tenancy.Cache.TenantCache.{
  TenantCache, init, lookup, get_by_identifier, set, make_room, unrename, evict_lru,
}
use fastapi_tenancy.Cache.TenantCache.Valid.{IsValid}
use fastapi_tenancy.Cache.TenantCache.Run.{Command, run, run-IsValid}
use fastapi_tenancy.Tests.Samples.{acme, globex}

-- A cache for one tenant and one second.
abbrev small : TenantCache
small = record { max_size = 1; ttl = 1; by_id = []; id_by_ident = []; hits = 0; misses = 0 }

built : init 1 1 ≡ ok small
unfolding init
built = refl

abbrev holding : TenantCache
holding = set 5 acme small

holding-IsValid : IsValid holding
unfolding run
holding-IsValid = (run-IsValid 1 1 (Command.sets 5 acme ∷ []) built).0

hit : (lookup 1000000005 (codes "t1") holding).0 ≡ some acme
unfolding lookup set get put move_to_end del text_dec make_room unrename evict_lru
hit = refl

stale : (lookup 1000000006 (codes "t1") holding).0 ≡ none
unfolding lookup set get put move_to_end del text_dec make_room unrename evict_lru
stale = refl

displaced : (lookup 6 (codes "t1") (set 6 globex holding)).0 ≡ none
unfolding lookup set get put move_to_end del text_dec make_room unrename evict_lru
displaced = refl

finds : (get_by_identifier 6 (codes "acme-corp") holding).0 ≡ some acme
unfolding get_by_identifier lookup set get put move_to_end del text_dec make_room unrename evict_lru
finds = refl

run-IsValid_example :
    IsValid (run (Command.sets 5 acme ∷ Command.sets 6 globex ∷ Command.purges 9 ∷ []) small)
    × (length
          (run (Command.sets 5 acme ∷ Command.sets 6 globex ∷ Command.purges 9 ∷ []) small).by_id
        ≤ 1)
run-IsValid_example =
    run-IsValid 1 1 (Command.sets 5 acme ∷ Command.sets 6 globex ∷ Command.purges 9 ∷ []) built
