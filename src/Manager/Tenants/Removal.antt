-- ===== src/Manager/Tenants/Removal.antt =====
-- manager.py: what delete_tenant, suspend_tenant and activate_tenant leave behind, over a store that
-- keeps its contract and whose calls may fail.
use fastapi_tenancy.Prelude.{
  ℕ, ◌≡◌, Text, text_dec, Option, none, some, Bool, false, ite, if◌then◌else◌,
}
use fastapi_tenancy.Core.Types.{Tenant, TenantStatus}
use fastapi_tenancy.Core.Exceptions.{Result, ok, raise, Error, tenant_not_found}
use fastapi_tenancy.Core.Config.{TenancyConfig}
use fastapi_tenancy.Storage.Contract.{TenantStore, IsStore, Same, restamped}
use fastapi_tenancy.Manager.Tenants.{Isolation, World, destroy, remove}

-- What is left of a deleted tenant.
abbrev pub remains : Bool → ℕ → Tenant → Option Tenant
remains enable_soft_delete now t =
    if enable_soft_delete then some (restamped now TenantStatus.deleted t) else none

module _ {S D : Type 0} {store : TenantStore S} (law : IsStore store)
    (isolation : Isolation D) where
  -- How a deletion ends.
  pub data Deleted (config : TenancyConfig) (now : ℕ) (k : Text) (destroy_data : Bool)
      (w : World S D) : Result (Unit {0}) × World S D → Type 0 where
    unread :
        (e : Error) (out : World S D)
        → (store.get_by_id k w.records).0 ≡ raise e
        → Same (law.view out.records) (law.view w.records)
        → out.namespaces ≡ w.namespaces
        → Deleted config now k destroy_data w (raise e, out)
    unknown :
        (out : World S D)
        → law.view w.records k ≡ none
        → Same (law.view out.records) (law.view w.records)
        → out.namespaces ≡ w.namespaces
        → Deleted config now k destroy_data w (raise (tenant_not_found (some k)), out)
    undestroyed :
        (t : Tenant) (e : Error) (out : World S D)
        → law.view w.records k ≡ some t
        → config.enable_soft_delete ≡ false
        → isolation.destroy_tenant t w.namespaces ≡ (raise e, out.namespaces)
        → Same (law.view out.records) (law.view w.records)
        → Deleted config now k destroy_data w (raise e, out)
    unremoved :
        (t : Tenant) (e : Error) (out : World S D)
        → law.view w.records k ≡ some t
        → (destroy isolation config destroy_data t w.namespaces ≡ (ok tt, out.namespaces))
        → (remove store config now k (store.get_by_id k w.records).1).0 ≡ raise e
        → Same (law.view out.records) (law.view w.records)
        → Deleted config now k destroy_data w (raise e, out)
    gone :
        (t : Tenant) (out : World S D)
        → law.view w.records k ≡ some t
        → (destroy isolation config destroy_data t w.namespaces ≡ (ok tt, out.namespaces))
        → ((j : Text)
            → law.view out.records j
              ≡ ite (text_dec k j) (remains config.enable_soft_delete now t) (law.view w.records j))
        → Deleted config now k destroy_data w (ok tt, out)
