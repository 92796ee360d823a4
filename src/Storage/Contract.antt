-- ===== src/Storage/Contract.antt =====
-- storage/tenant_store.py: the methods of a store that the manager calls, as operations on a state,
-- and what their docstrings promise of them, by what the store has under an id. A call may raise for
-- a reason of the storage's own (TenancyError), and a call that raises changes no tenant.
use fastapi_tenancy.Prelude.{ℕ, ◌≡◌, ◌⊎◌, inl, Text, text_dec, Option, none, some, ite}
use fastapi_tenancy.Core.Types.{Tenant, TenantStatus}
use fastapi_tenancy.Core.Exceptions.{Result, ok, raise, Error, tenant_not_found}

pub record TenantStore (S : Type 0) : Type 0 where
  pub get_by_id : Text → S → Result Tenant × S
  pub create : Tenant → S → Result Tenant × S
  pub delete : Text → S → Result (Unit {0}) × S
  pub set_status : ℕ → Text → TenantStatus → S → Result Tenant × S

-- A tenant or TenantNotFoundError.
abbrev pub found : Text → Option Tenant → Result Tenant
found k none = raise (tenant_not_found (some k))
found k (some t) = ok t

abbrev pub restamped : ℕ → TenantStatus → Tenant → Tenant
restamped now st t = record t { status = st; updated_at = now }

-- Two stores with the same tenants.
abbrev pub Same : (Text → Option Tenant) → (Text → Option Tenant) → Type 0
Same v w = (k : Text) → v k ≡ w k

pub record IsStore {S : Type 0} (store : TenantStore S) : Type 1 where
  pub IsValid : S → Type 0
  pub view : S → Text → Option Tenant
  pub get_by_id-found :
      (k : Text) (s : S)
      → IsValid s
      → ((store.get_by_id k s).0 ≡ found k (view s k))
        ⊎ ((e : Error) × ((store.get_by_id k s).0 ≡ raise e))
  pub get_by_id-keeps :
      (k : Text) (s : S)
      → IsValid s
      → IsValid (store.get_by_id k s).1 × Same (view (store.get_by_id k s).1) (view s)
  pub create-IsValid : (t : Tenant) (s : S) → IsValid s → IsValid (store.create t s).1
  pub create-ok :
      (t u : Tenant) (s : S)
      → IsValid s
      → (store.create t s).0 ≡ ok u
      → (u ≡ t)
        × (view s t.id ≡ none)
        × ((j : Text) → view (store.create t s).1 j ≡ ite (text_dec t.id j) (some t) (view s j))
  pub create-raise :
      (t : Tenant) (s : S) (e : Error)
      → IsValid s
      → (store.create t s).0 ≡ raise e
      → Same (view (store.create t s).1) (view s)
  pub delete-IsValid : (k : Text) (s : S) → IsValid s → IsValid (store.delete k s).1
  pub delete-ok :
      (k : Text) (s : S) (t : Tenant)
      → IsValid s
      → view s k ≡ some t
      → (((store.delete k s).0 ≡ ok tt)
          × ((j : Text) → view (store.delete k s).1 j ≡ ite (text_dec k j) none (view s j)))
        ⊎ ((e : Error) × ((store.delete k s).0 ≡ raise e)
            × Same (view (store.delete k s).1) (view s))
  pub set_status-IsValid :
      (now : ℕ) (k : Text) (st : TenantStatus) (s : S)
      → IsValid s
      → IsValid (store.set_status now k st s).1
  pub set_status-ok :
      (now : ℕ) (k : Text) (st : TenantStatus) (s : S) (t : Tenant)
      → IsValid s
      → view s k ≡ some t
      → (((store.set_status now k st s).0 ≡ ok (restamped now st t))
          × ((j : Text)
              → view (store.set_status now k st s).1 j
                ≡ ite (text_dec k j) (some (restamped now st t)) (view s j)))
        ⊎ ((e : Error) × ((store.set_status now k st s).0 ≡ raise e)
            × Same (view (store.set_status now k st s).1) (view s))

-- The contract of a store whose calls raise for no reason of the storage's own.
pub record IsReliable {S : Type 0} (store : TenantStore S) : Type 1 where
  pub IsValid : S → Type 0
  pub view : S → Text → Option Tenant
  pub get_by_id-found :
      (k : Text) (s : S) → IsValid s → (store.get_by_id k s).0 ≡ found k (view s k)
  pub get_by_id-keeps :
      (k : Text) (s : S)
      → IsValid s
      → IsValid (store.get_by_id k s).1 × Same (view (store.get_by_id k s).1) (view s)
  pub create-IsValid : (t : Tenant) (s : S) → IsValid s → IsValid (store.create t s).1
  pub create-ok :
      (t u : Tenant) (s : S)
      → IsValid s
      → (store.create t s).0 ≡ ok u
      → (u ≡ t)
        × (view s t.id ≡ none)
        × ((j : Text) → view (store.create t s).1 j ≡ ite (text_dec t.id j) (some t) (view s j))
  pub create-raise :
      (t : Tenant) (s : S) (e : Error)
      → IsValid s
      → (store.create t s).0 ≡ raise e
      → Same (view (store.create t s).1) (view s)
  pub delete-IsValid : (k : Text) (s : S) → IsValid s → IsValid (store.delete k s).1
  pub delete-ok :
      (k : Text) (s : S) (t : Tenant)
      → IsValid s
      → view s k ≡ some t
      → ((store.delete k s).0 ≡ ok tt)
        × ((j : Text) → view (store.delete k s).1 j ≡ ite (text_dec k j) none (view s j))
  pub set_status-IsValid :
      (now : ℕ) (k : Text) (st : TenantStatus) (s : S)
      → IsValid s
      → IsValid (store.set_status now k st s).1
  pub set_status-ok :
      (now : ℕ) (k : Text) (st : TenantStatus) (s : S) (t : Tenant)
      → IsValid s
      → view s k ≡ some t
      → ((store.set_status now k st s).0 ≡ ok (restamped now st t))
        × ((j : Text)
            → view (store.set_status now k st s).1 j
              ≡ ite (text_dec k j) (some (restamped now st t)) (view s j))
  pub set_status-raise :
      (now : ℕ) (k : Text) (st : TenantStatus) (s : S)
      → IsValid s
      → view s k ≡ none
      → ((store.set_status now k st s).0 ≡ raise (tenant_not_found (some k)))
        × Same (view (store.set_status now k st s).1) (view s)

-- A reliable store keeps the contract.
abbrev pub reliable-IsStore :
    {S : Type 0} {store : TenantStore S} → IsReliable store → IsStore store
reliable-IsStore law = record {
  IsValid = law.IsValid;
  view = law.view;
  get_by_id-found = λ k s v. inl (law.get_by_id-found k s v);
  get_by_id-keeps = law.get_by_id-keeps;
  create-IsValid = law.create-IsValid;
  create-ok = law.create-ok;
  create-raise = law.create-raise;
  delete-IsValid = law.delete-IsValid;
  delete-ok = λ k s t v h. inl (law.delete-ok k s t v h);
  set_status-IsValid = law.set_status-IsValid;
  set_status-ok = λ now k st s t v h. inl (law.set_status-ok now k st s t v h);
}
