-- ===== src/Storage/Memory/Batch.antt =====
-- The methods on many ids against the defaults of TenantStore.
use mathlib.Core.List.{append-nil, append_assoc}
use fastapi_tenancy.Prelude.{
  ℕ, ◌≡◌, ◌∙◌, Text, List, [], ◌∷◌, ◌++◌, arith, Option-cases, inl, inr, ap,
}
use fastapi_tenancy.Prelude.Dict.{get, put}
use fastapi_tenancy.Core.Types.{Tenant, TenantStatus}
use fastapi_tenancy.Core.Exceptions.{ok}
use fastapi_tenancy.Storage.Memory.{
  MemoryStore, get_by_id, get_by_ids, set_status, bulk_loop, bulk_update_status, with_status,
}
use fastapi_tenancy.Storage.TenantStore

collected :
    (s : MemoryStore) (ids : List Text) (acc : List Tenant)
    → TenantStore.get_by_ids (get_by_id s) ids acc ≡ ok (acc ++ get_by_ids s ids)
unfolding TenantStore.get_by_ids get_by_id get_by_ids
collected s [] acc = rw append-nil
collected s (k ∷ ids) acc = elim (Option-cases (get k s.tenants)) [
  | inl e ↦ rw (e, TenantStore.get_by_ids, get_by_ids) (collected s ids acc)
  | inr (t, e) ↦
      rw (e, TenantStore.get_by_ids, get_by_ids)
        (collected s ids (acc ++ t ∷ []) ∙ ap ok (append_assoc acc (t ∷ []) _))
]

-- get_by_ids returns what the default of TenantStore returns, which raises nothing.
pub get_by_ids-default :
    (s : MemoryStore) (ids : List Text)
    → TenantStore.get_by_ids (get_by_id s) ids [] ≡ ok (get_by_ids s ids)
get_by_ids-default s ids = collected s ids []

updated :
    (now : ℕ) (st : TenantStatus) (ids : List Text) (acc : List Tenant) (s : MemoryStore)
    → TenantStore.bulk_update_status (λ k. set_status now k st) ids acc s ≡ (
      ok (acc ++ (bulk_loop now st ids s.tenants).0),
      record s { tenants = (bulk_loop now st ids s.tenants).1 },
    )
unfolding TenantStore.bulk_update_status set_status bulk_loop
updated now st [] acc s = rw append-nil
updated now st (k ∷ ids) acc s = elim (Option-cases (get k s.tenants)) [
  | inl e ↦ ground (arith, e, updated now st ids acc s)
  | inr (t, e) ↦
      let t' : Tenant = with_status st now t in
      let s' : MemoryStore = record s { tenants = put k t' s.tenants } in
      ground (
        arith,
        e,
        updated now st ids (acc ++ t' ∷ []) s',
        append_assoc acc (t' ∷ []) (bulk_loop now st ids s'.tenants).0,
      )
]

-- bulk_update_status returns and stores what the default of TenantStore, which calls set_status for
-- one id after the other, returns and stores when the clock stands still; the default raises
-- nothing.
pub bulk_update_status-default :
    (now : ℕ) (ids : List Text) (st : TenantStatus) (s : MemoryStore)
    → TenantStore.bulk_update_status (λ k. set_status now k st) ids [] s
      ≡ (ok (bulk_update_status now ids st s).0, (bulk_update_status now ids st s).1)
unfolding bulk_update_status
bulk_update_status-default now ids st s = updated now st ids [] s
