-- ===== src/Middleware/Tenancy/Suspended.antt =====
-- middleware/tenancy.py and manager.py: a request after suspend_tenant, with the cache on.
use fastapi_tenancy.Prelude.{
  ℕ, ◌≡◌, ◌∙◌, refl, Text, none, some, false, inl, inr, arith, Option-cases,
}
use fastapi_tenancy.Prelude.Dict.{get}
use fastapi_tenancy.Core.Types.{Tenant, TenantStatus, is_active, status_eq}
use fastapi_tenancy.Core.Exceptions.{ok}
use fastapi_tenancy.Core.Context.{Context}
use fastapi_tenancy.Storage.Memory.Reach.{get_by_identifier_iff}
use fastapi_tenancy.Manager.CachingStore.{CachingStoreProxy, get_by_identifier}
use fastapi_tenancy.Manager.CachingStore.Stored.{caching, view, set_status-ok, set_status-raise}
use fastapi_tenancy.Manager.CachingStore.Transparent.{
  Reach, next, Call, Reach-IsSound, get_by_identifier-get_by_identifier,
}
use fastapi_tenancy.Manager.Tenants.{suspend_tenant}
use fastapi_tenancy.Middleware.Tenancy.{Scope, App, Manager, handle, refuse, not_active}

-- A suspended tenant is what the store then has under its id.
suspended-view :
    (stamp : ℕ) (k : Text) (p : CachingStoreProxy) (t : Tenant)
    → (suspend_tenant caching stamp k p).0 ≡ ok t
    → (view (suspend_tenant caching stamp k p).1 k ≡ some t) × (is_active t ≡ false)
unfolding suspend_tenant is_active status_eq
suspended-view stamp k p t h = elim (Option-cases (view p k)) [
  | inl e ↦ ground (arith, h, set_status-raise p stamp k TenantStatus.suspended e)
  | inr (u, e) ↦
      let (r, after) = set_status-ok p stamp k TenantStatus.suspended u e in
      (ground (arith, h, r, after k), ground (arith, h, r))
]

refused :
    (m : Manager) (app : App) (scope : Scope) (c : Context) (t : Tenant)
    → m.resolve scope ≡ ok t
    → is_active t ≡ false
    → handle m app scope c ≡ refuse scope c 403 (not_active t) none
unfolding handle
refused m app scope c t r a = ground (arith, r, a)

-- For the proxy over an in-memory store, after calls of the methods that it overrides and that start
-- from an empty store and run strictly one after the other, without an update that takes the
-- identifier of another tenant: once suspend_tenant has returned a tenant, the next request that the
-- middleware handles and whose resolver looks up the identifier of that tenant is answered with 403,
-- and the application does not run. Of a lookup that runs while the status changes nothing is said.
pub suspend_tenant-refused :
    (m : Manager) (app : App) (scope : Scope) (c : Context) (now later stamp max_size ttl : ℕ)
    (k : Text) (p : CachingStoreProxy) (t : Tenant)
    → Reach max_size ttl p
    → (suspend_tenant caching stamp k p).0 ≡ ok t
    → m.resolve scope
      ≡ (get_by_identifier now later t.identifier (suspend_tenant caching stamp k p).1).0
    → handle m app scope c ≡ refuse scope c 403 (not_active t) none
unfolding suspend_tenant
suspend_tenant-refused m app scope c now later stamp max_size ttl k p t reach h r =
    let q = (suspend_tenant caching stamp k p).1 in
    let reach' = next reach (Call.sets_status stamp k TenantStatus.suspended) in
    let (there, inactive) = suspended-view stamp k p t h in
    let cons = (Reach-IsSound reach').consistent in
    let named : get t.id q.store.tenants ≡ some t =
      ground (arith, cons.under_id k t there, there) in
    let stored = ((get_by_identifier_iff q.store t.identifier cons).0 t).1 (named, refl) in
    let answer = (get_by_identifier-get_by_identifier now later t.identifier q reach').0 in
    refused m app scope c t (r ∙ answer ∙ stored) inactive
