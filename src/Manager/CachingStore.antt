-- ===== src/Manager/CachingStore.antt =====
-- manager.py: _CachingStoreProxy, the tenant cache in front of a store, here the in-memory one. A
-- call is one step; `populate` is the part of a lookup after its await. `now` and `later` are
-- readings of the monotonic clock, `stamp` is the store's.
pub mod Coherence
pub mod Sound
pub mod Transparent
pub mod Stored
use fastapi_tenancy.Prelude.{ℕ, Text, text_dec, Option, none, some, List, ite}
use fastapi_tenancy.Prelude.Dict.{Dict}
use fastapi_tenancy.Core.Types.{Tenant, TenantStatus, Json}
use fastapi_tenancy.Core.Exceptions.{Result, ok, raise}
use fastapi_tenancy.Storage.Memory as Store
use fastapi_tenancy.Storage.Memory.{MemoryStore}
use fastapi_tenancy.Cache.TenantCache as Cache
use fastapi_tenancy.Cache.TenantCache.{TenantCache}

pub record CachingStoreProxy : Type 0 where
  pub store : MemoryStore
  pub l1 : TenantCache

-- The end of get_by_identifier, after the await of the store's answer.
unfoldable pub populate : ℕ → Tenant → CachingStoreProxy → CachingStoreProxy
populate later t p = record p { l1 = Cache.set later t p.l1 }

unfoldable pub get_by_identifier :
    ℕ → ℕ → Text → CachingStoreProxy → Result Tenant × CachingStoreProxy
unfolding populate
get_by_identifier now later i p =
    let (cached, l1) = Cache.get_by_identifier now i p.l1 in
    elim cached [
      | some t ↦ (ok t, record p { l1 = l1 })
      | none ↦ elim (Store.get_by_identifier p.store i) [
        | raise e ↦ (raise e, record p { l1 = l1 })
        | ok t ↦ (ok t, populate later t (record p { l1 = l1 }))
      ]
    ]

-- After the store's method: an error leaves the proxy's method, a result is invalidated first.
unfoldable pub written :
    (Tenant → Text) → Result Tenant × MemoryStore → TenantCache → Result Tenant × CachingStoreProxy
written key outcome l1 = elim outcome.0 [
  | raise e ↦ (raise e, record { store = outcome.1; l1 = l1 })
  | ok t ↦ (ok t, record { store = outcome.1; l1 = (Cache.invalidate (key t) l1).1 })
]

unfoldable pub create : Tenant → CachingStoreProxy → Result Tenant × CachingStoreProxy
unfolding written
create t p = written (λ u. u.id) (Store.create t p.store) p.l1

-- The first step of update: the identifier under which the old version is cached.
unfoldable pub forget_old : Option Tenant → Tenant → TenantCache → TenantCache
forget_old none t l1 = l1
forget_old (some old) t l1 =
    ite (text_dec old.identifier t.identifier) l1
      (Cache.invalidate_by_identifier old.identifier l1).1

unfoldable pub update : ℕ → ℕ → Tenant → CachingStoreProxy → Result Tenant × CachingStoreProxy
unfolding forget_old written
update now stamp t p =
    let (old_cached, l1) = Cache.lookup now t.id p.l1 in
    written (λ u. u.id) (Store.update stamp t p.store) (forget_old old_cached t l1)

unfoldable pub set_status :
    ℕ → Text → TenantStatus → CachingStoreProxy → Result Tenant × CachingStoreProxy
unfolding written
set_status stamp tenant_id status p =
    written (λ _. tenant_id) (Store.set_status stamp tenant_id status p.store) p.l1

unfoldable pub delete : Text → CachingStoreProxy → Result (Unit {0}) × CachingStoreProxy
delete tenant_id p =
    let (r, s) = Store.delete tenant_id p.store in
    elim r [
      | raise e ↦ (raise e, record p { store = s })
      | ok u ↦ (ok u, record { store = s; l1 = (Cache.invalidate tenant_id p.l1).1 })
    ]

-- update_metadata is not overridden: __getattr__ hands it to the store.
unfoldable pub update_metadata :
    ℕ → Text → Dict Json → CachingStoreProxy → Result Tenant × CachingStoreProxy
update_metadata stamp tenant_id metadata p =
    let (r, s) = Store.update_metadata stamp tenant_id metadata p.store in
    (r, record p { store = s })
