-- ===== src/Storage/Memory/Stored.antt =====
-- storage/memory.py: the in-memory store as a TenantStore, and the contract.
use fastapi_tenancy.Prelude.{
  ℕ, ◌≡◌, refl, Text, text_dec, none, some, ite, arith, inl, inr, Option-cases,
}
use fastapi_tenancy.Prelude.Dict.{get, get-put, get-del}
use fastapi_tenancy.Core.Types.{Tenant, TenantStatus}
use fastapi_tenancy.Core.Exceptions.{ok, raise, Error, tenant_not_found}
use fastapi_tenancy.Storage.Contract.{TenantStore, IsReliable, found, restamped}
use fastapi_tenancy.Storage.Memory.{MemoryStore, get_by_id, create, delete, set_status}
use fastapi_tenancy.Storage.Memory.Consistent.{
  IsConsistent, create-IsConsistent, delete-IsConsistent, set_status-IsConsistent,
}

abbrev pub memory : TenantStore MemoryStore
memory = record {
  get_by_id = λ k s. (get_by_id s k, s);
  create = create;
  delete = delete;
  set_status = set_status;
}

pub get_by_id-found : (k : Text) (s : MemoryStore) → get_by_id s k ≡ found k (get k s.tenants)
unfolding get_by_id
get_by_id-found k s = elim (Option-cases (get k s.tenants)) [
  | inl e ↦ ground (arith, e)
  | inr (t, e) ↦ ground (arith, e)
]

pub create-ok :
    (t u : Tenant) (s : MemoryStore)
    → (create t s).0 ≡ ok u
    → (u ≡ t)
      × (get t.id s.tenants ≡ none)
      × ((j : Text)
          → get j (create t s).1.tenants ≡ ite (text_dec t.id j) (some t) (get j s.tenants))
unfolding create
create-ok t u s h = (ground arith, ground arith, λ j. ground (arith, get-put j t.id t s.tenants))

pub create-raise :
    (t : Tenant) (s : MemoryStore) (e : Error)
    → (create t s).0 ≡ raise e
    → (j : Text) → get j (create t s).1.tenants ≡ get j s.tenants
unfolding create
create-raise t s e h j = ground arith

pub delete-ok :
    (k : Text) (s : MemoryStore) (t : Tenant)
    → IsConsistent s
    → get k s.tenants ≡ some t
    → ((delete k s).0 ≡ ok tt)
      × ((j : Text) → get j (delete k s).1.tenants ≡ ite (text_dec k j) none (get j s.tenants))
unfolding delete
delete-ok k s t c h =
    let i = c.indexed k t h in (ground (arith, i), λ j. ground (arith, i, get-del j k s.tenants))

pub set_status-ok :
    (now : ℕ) (k : Text) (st : TenantStatus) (s : MemoryStore) (t : Tenant)
    → get k s.tenants ≡ some t
    → ((set_status now k st s).0 ≡ ok (restamped now st t))
      × ((j : Text)
          → get j (set_status now k st s).1.tenants
            ≡ ite (text_dec k j) (some (restamped now st t)) (get j s.tenants))
unfolding set_status
set_status-ok now k st s t h =
    (ground (arith, h), λ j. ground (arith, h, get-put j k (restamped now st t) s.tenants))

pub set_status-raise :
    (now : ℕ) (k : Text) (st : TenantStatus) (s : MemoryStore)
    → get k s.tenants ≡ none
    → ((set_status now k st s).0 ≡ raise (tenant_not_found (some k)))
      × ((j : Text) → get j (set_status now k st s).1.tenants ≡ get j s.tenants)
unfolding set_status
set_status-raise now k st s h = (ground (arith, h), λ j. ground (arith, h))

-- The in-memory store keeps the contract, with the consistency of its indices as the invariant.
abbrev pub memory-IsReliable : IsReliable memory
memory-IsReliable = record {
  IsValid = IsConsistent;
  view = λ s k. get k s.tenants;
  get_by_id-found = λ k s c. get_by_id-found k s;
  get_by_id-keeps = λ k s c. (c, λ j. refl);
  create-IsValid = λ t s c. create-IsConsistent t c;
  create-ok = λ t u s c. create-ok t u s;
  create-raise = λ t s e c. create-raise t s e;
  delete-IsValid = λ k s c. delete-IsConsistent k c;
  delete-ok = λ k s t c. delete-ok k s t c;
  set_status-IsValid = λ now k st s c. set_status-IsConsistent now k st c;
  set_status-ok = λ now k st s t c. set_status-ok now k st s t;
  set_status-raise = λ now k st s c. set_status-raise now k st s;
}
