-- ===== src/Manager/CachingStore/Stored.antt =====
-- manager.py: the store that the manager has when the cache is on, the proxy, as a TenantStore, and
-- the contract. get_by_id is not overridden: __getattr__ hands it to the store.
use mathlib.Core.Path.{subst}
use fastapi_tenancy.Prelude.{
  ℕ, ◌≡◌, refl, sym, Text, text_dec, Option, none, some, ite, arith, inl, inr,
}
use fastapi_tenancy.Prelude.Dict.{get}
use fastapi_tenancy.Core.Types.{Tenant, TenantStatus}
use fastapi_tenancy.Core.Exceptions.{Result, ok, raise, Error, tenant_not_found, Result-cases}
use fastapi_tenancy.Storage.Contract.{TenantStore, IsReliable, Same, restamped}
use fastapi_tenancy.Storage.Memory as Store
use fastapi_tenancy.Storage.Memory.{MemoryStore}
use fastapi_tenancy.Storage.Memory.Stored as Stored
use fastapi_tenancy.Cache.TenantCache.{TenantCache}
use fastapi_tenancy.Manager.CachingStore.{CachingStoreProxy, written, create, set_status, delete}
use fastapi_tenancy.Manager.CachingStore.Sound.{
  IsSound, written-store, create-IsSound, set_status-IsSound, delete-IsSound,
}

abbrev pub caching : TenantStore CachingStoreProxy
caching = record {
  get_by_id = λ k p. (Store.get_by_id p.store k, p);
  create = create;
  delete = delete;
  set_status = set_status;
}

abbrev pub view : CachingStoreProxy → Text → Option Tenant
view p k = get k p.store.tenants

written-result :
    (key : Tenant → Text) (outcome : Result Tenant × MemoryStore) (l : TenantCache)
    → (written key outcome l).0 ≡ outcome.0
unfolding written
written-result key outcome l = ground arith

-- A method of the proxy does to the store what the store's method does.
create_alike :
    (t : Tenant) (p : CachingStoreProxy)
    → ((create t p).0, (create t p).1.store) ≡ Store.create t p.store
unfolding create
create_alike t p =
    rw
      (
        written-result (λ u. u.id) (Store.create t p.store) p.l1,
        written-store (λ u. u.id) (Store.create t p.store) p.l1,
      )
      refl

set_status_alike :
    (now : ℕ) (k : Text) (st : TenantStatus) (p : CachingStoreProxy)
    → ((set_status now k st p).0, (set_status now k st p).1.store)
      ≡ Store.set_status now k st p.store
unfolding set_status
set_status_alike now k st p =
    rw
      (
        written-result (λ _. k) (Store.set_status now k st p.store) p.l1,
        written-store (λ _. k) (Store.set_status now k st p.store) p.l1,
      )
      refl

delete_alike :
    (k : Text) (p : CachingStoreProxy)
    → ((delete k p).0, (delete k p).1.store) ≡ Store.delete k p.store
unfolding delete
delete_alike k p = elim (Result-cases (Store.delete k p.store).0) [
  | inl (_, f) ↦ rw (f, delete) refl
  | inr (x, f) ↦ rw (f, delete) refl
]

module _ (p : CachingStoreProxy) where
  pub create-ok :
      (t u : Tenant)
      → (create t p).0 ≡ ok u
      → (u ≡ t)
        × (view p t.id ≡ none)
        × ((j : Text) → view (create t p).1 j ≡ ite (text_dec t.id j) (some t) (view p j))
  create-ok t u =
      subst
        (λ o.
          o.0 ≡ ok u
          → (u ≡ t)
            × (view p t.id ≡ none)
            × ((j : Text) → get j o.1.tenants ≡ ite (text_dec t.id j) (some t) (view p j)))
        (sym (create_alike t p)) (Stored.create-ok t u p.store)

  pub create-raise :
      (t : Tenant) (e : Error) → (create t p).0 ≡ raise e → Same (view (create t p).1) (view p)
  create-raise t e =
      subst (λ o. o.0 ≡ raise e → (j : Text) → get j o.1.tenants ≡ view p j)
        (sym (create_alike t p)) (Stored.create-raise t p.store e)

  pub delete-ok :
      (k : Text) (t : Tenant)
      → IsSound p
      → view p k ≡ some t
      → ((delete k p).0 ≡ ok tt)
        × ((j : Text) → view (delete k p).1 j ≡ ite (text_dec k j) none (view p j))
  delete-ok k t v h =
      subst
        (λ o. (o.0 ≡ ok tt) × ((j : Text) → get j o.1.tenants ≡ ite (text_dec k j) none (view p j)))
        (sym (delete_alike k p)) (Stored.delete-ok k p.store t v.consistent h)

  pub set_status-ok :
      (now : ℕ) (k : Text) (st : TenantStatus) (t : Tenant)
      → view p k ≡ some t
      → ((set_status now k st p).0 ≡ ok (restamped now st t))
        × ((j : Text)
            → view (set_status now k st p).1 j
              ≡ ite (text_dec k j) (some (restamped now st t)) (view p j))
  set_status-ok now k st t h =
      subst
        (λ o.
          (o.0 ≡ ok (restamped now st t))
          × ((j : Text)
              → get j o.1.tenants ≡ ite (text_dec k j) (some (restamped now st t)) (view p j)))
        (sym (set_status_alike now k st p)) (Stored.set_status-ok now k st p.store t h)

  pub set_status-raise :
      (now : ℕ) (k : Text) (st : TenantStatus)
      → view p k ≡ none
      → ((set_status now k st p).0 ≡ raise (tenant_not_found (some k)))
        × Same (view (set_status now k st p).1) (view p)
  set_status-raise now k st h =
      subst
        (λ o.
          (o.0 ≡ raise (tenant_not_found (some k))) × ((j : Text) → get j o.1.tenants ≡ view p j))
        (sym (set_status_alike now k st p)) (Stored.set_status-raise now k st p.store h)

-- The caching proxy keeps the contract as well, so that what holds of the manager over any store
-- holds of it over the proxy.
abbrev pub caching-IsReliable : IsReliable caching
caching-IsReliable = record {
  IsValid = IsSound;
  view = view;
  get_by_id-found = λ k p v. Stored.get_by_id-found k p.store;
  get_by_id-keeps = λ k p v. (v, λ j. refl);
  create-IsValid = λ t p v. create-IsSound t p v;
  create-ok = λ t u p v. create-ok p t u;
  create-raise = λ t p e v. create-raise p t e;
  delete-IsValid = λ k p v. delete-IsSound k p v;
  delete-ok = λ k p t v. delete-ok p k t v;
  set_status-IsValid = λ now k st p v. set_status-IsSound now k st p v;
  set_status-ok = λ now k st p t v. set_status-ok p now k st t;
  set_status-raise = λ now k st p v. set_status-raise p now k st;
}
