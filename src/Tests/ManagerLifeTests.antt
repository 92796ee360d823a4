-- ===== src/Tests/ManagerLifeTests.antt =====
-- The lifespan and the purge loop of the manager.
use fastapi_tenancy.Prelude.{
  ◌≡◌, ◌≤◌, refl, ◌+◌, ◌*◌, codes, none, some, List, [], ◌∷◌, true, false, arith, text_dec,
}
use fastapi_tenancy.Prelude.Dict.{get, put, del, move_to_end}
use fastapi_tenancy.Core.Exceptions.{foreign, raise}
use fastapi_tenancy.Cache.TenantCache.{
  TenantCache, Entry, init, second, set, make_room, unrename, expired_keys, evict_all, evict,
  purge_expired,
}
use fastapi_tenancy.Cache.TenantCache.Valid.{IsValid, init-IsValid}
use fastapi_tenancy.Cache.TenantCache.Run.{Command, sets, run, apply}
use fastapi_tenancy.Manager.Lifecycle.{
  World, Manager, Action, initialize, purge_loop, purge_interval,
}
use fastapi_tenancy.Manager.Lifecycle.Lifespan.{Ends, lifespan-Ends}
use fastapi_tenancy.Manager.Lifecycle.Purge.{purge_loop-bounds}
use fastapi_tenancy.Tests.Samples.{acme, globex, sample_config}

abbrev calm : World
calm = record {
  can_warm = false;
  can_close = true;
  has_cache = true;
  has_redis = true;
  ends = λ step. none;
}

abbrev idle : Manager
idle = record { purging = false; limiter = false; limiting = true; tried = [] }

abbrev crashing : Action
crashing s = (raise foreign, s)

lifespan-Ends_example : Ends calm sample_config crashing idle (initialize calm sample_config idle).0
lifespan-Ends_example = lifespan-Ends calm sample_config crashing idle

abbrev fresh : TenantCache
fresh = record { max_size = 2; ttl = 4; by_id = []; id_by_ident = []; hits = 0; misses = 0 }

fresh-IsValid : IsValid fresh
unfolding init
fresh-IsValid = init-IsValid 2 4 refl

-- One round, in which a tenant is cached at once; then another tenant, cached in the next second.
abbrev rounds : List (List Command)
rounds = (sets 0 acme ∷ []) ∷ []

abbrev later : List Command
later = sets (2 * second) globex ∷ []

abbrev kept : Entry
kept = record { tenant = acme; expires_at = 4 * second }

still_there :
    get (codes "t1") (run later (purge_loop (purge_interval 4) 0 rounds fresh)).by_id ≡ some kept
unfolding get put del move_to_end run apply purge_loop purge_interval set make_room unrename
    purge_expired expired_keys evict_all evict text_dec
still_there = refl

purge_loop-bounds_example : 2 * (4 * second) ≤ 2 * kept.expires_at + 4 * second
purge_loop-bounds_example =
    purge_loop-bounds 4 0 (4 * second) rounds later fresh (codes "t1") kept (omega arith)
      fresh-IsValid tt (unfold purge_interval in (omega arith, tt))
      (unfold purge_interval in omega arith) still_there
