-- ===== src/Manager/Tenants/Registration.antt =====
-- manager.py: what register_tenant leaves behind, over a store that keeps its contract
-- and whose calls may fail.
use fastapi_tenancy.Prelude.{
  ℕ, ◌≡◌, ◌⊎◌, refl, Text, text_dec, Option, none, some, Bool, false, ite,
}
use fastapi_tenancy.Core.Types.{Tenant}
use fastapi_tenancy.Core.Exceptions.{Result, ok, raise, Error, tenancy, value_error}
use fastapi_tenancy.Utils.Encryption.{Fernet, encrypt_tenant_fields}
use fastapi_tenancy.Utils.Encryption.RoundTrip.{Reads}
use fastapi_tenancy.Storage.Contract.{TenantStore, IsStore, Same}
use fastapi_tenancy.Manager.Tenants.{Isolation, World, encrypted}

-- The documented behaviour of the manager's Fernet, if it has one.
abbrev pub Readable : Option Fernet → Type 0
Readable none = Unit
Readable (some f) = Reads f

encrypted-id : (e : Option Fernet) (n : ℕ) (t : Tenant) → (encrypted e n t).id ≡ t.id
unfolding encrypted encrypt_tenant_fields
encrypted-id none n t = refl
encrypted-id (some f) n t = refl

module _ {S D : Type 0} {store : TenantStore S} (law : IsStore store)
    (isolation : Isolation D) where
  -- The tenant is stored, encrypted, and every other one is as before.
  abbrev pub Stored : Tenant → S → S → Type 0
  Stored t before after =
      (law.view before t.id ≡ none)
      × ((j : Text) → law.view after j ≡ ite (text_dec t.id j) (some t) (law.view before j))

  -- Why a registration raises.
  pub data Cause (valid : Bool) (sealed : Tenant) (w : World S D) : Error → Type 0 where
    invalid : valid ≡ false → Cause valid sealed w value_error
    taken : (e : Error) → (store.create sealed w.records).0 ≡ raise e → Cause valid sealed w e
    uninitialised :
        (e : Error)
        → (isolation.initialize_tenant sealed w.namespaces).0 ≡ raise e
        → Cause valid sealed w tenancy

  -- What a registration of a tenant, as it is stored and as it is shown, makes of a world.
  abbrev pub Registered : Bool → Tenant → Tenant → World S D → Result Tenant × World S D → Type 0
  Registered valid sealed plain w out =
      ((out.0 ≡ ok plain)
        × Stored sealed w.records out.1.records
        × (isolation.initialize_tenant sealed w.namespaces ≡ (ok tt, out.1.namespaces)))
      ⊎ ((e : Error) × (out.0 ≡ raise e)
          × Cause valid sealed w e
          × Same (law.view out.1.records) (law.view w.records))
      ⊎ ((out.0 ≡ raise tenancy)
          × ((x : Error) × ((isolation.initialize_tenant sealed w.namespaces).0 ≡ raise x))
          × ((f : Error) × ((store.delete sealed.id (store.create sealed w.records).1).0 ≡ raise f))
          × Stored sealed w.records out.1.records)
