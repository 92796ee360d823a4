-- ===== src/Storage/TenantStore.antt =====
-- storage/tenant_store.py: the default methods of TenantStore, over the methods that a subclass
-- must give. An iteration skips an id that is not found; any other error ends it.
use fastapi_tenancy.Prelude.{ℕ, Text, List, [], ◌∷◌, ◌++◌, Bool, ◌||◌, keep, take, is_infix}
use fastapi_tenancy.Core.Types.{Tenant}
use fastapi_tenancy.Core.Exceptions.{Result, ok, raise, tenant_not_found}

-- get_by_ids: `result` is the list so far.
unfoldable pub get_by_ids : (Text → Result Tenant) → List Text → List Tenant → Result (List Tenant)
get_by_ids get_by_id [] result = ok result
get_by_ids get_by_id (tid ∷ rest) result = elim (get_by_id tid) [
  | ok t ↦ get_by_ids get_by_id rest (result ++ t ∷ [])
  | raise (tenant_not_found i) ↦ get_by_ids get_by_id rest result
  | raise e ↦ raise e
]

module _ {S : Type 0} where
  -- bulk_update_status, over set_status
  unfoldable pub bulk_update_status :
      (Text → S → Result Tenant × S) → List Text → List Tenant → S → Result (List Tenant) × S
  bulk_update_status set_status [] updated s = (ok updated, s)
  bulk_update_status set_status (tid ∷ rest) updated s =
      let (r, s') = set_status tid s in
      elim r [
        | ok t ↦ bulk_update_status set_status rest (updated ++ t ∷ []) s'
        | raise (tenant_not_found i) ↦ bulk_update_status set_status rest updated s'
        | raise e ↦ (raise e, s')
      ]

abbrev pub found_in : (Text → Text) → Text → Tenant → Bool
found_in lower q t = is_infix q (lower t.identifier) || is_infix q (lower t.name)

-- search: `candidates` is what list(skip=0, limit=_scan_limit) returned.
unfoldable pub search : (Text → Text) → List Tenant → Text → ℕ → List Tenant
search lower candidates query limit = take limit (keep (found_in lower (lower query)) candidates)
