-- ===== src/Storage/Sql/Queries/Batch.antt =====
-- storage/database.py: the methods on many rows beside those of the in-memory store.
use fastapi_tenancy.Prelude.{
  ◌≡◌, refl, sym, ap, ◌∙◌, ℕ, Text, text_dec, text_eq, contains, List, [], ◌∷◌, Option, none, some,
  Bool, true, arith, length, keep, Option-cases, Bool-cases, inl, inr, if◌then◌else◌,
}
use fastapi_tenancy.Prelude.Dict.{Dict, IsDict, get, put, values, get-put}
use fastapi_tenancy.Core.Types.{Tenant, TenantStatus, status_value, status_eq}
use fastapi_tenancy.Core.Exceptions.{ok}
use fastapi_tenancy.Storage.Memory as Store
use fastapi_tenancy.Storage.Memory.{MemoryStore, with_status}
use fastapi_tenancy.Storage.Memory.Consistent.{IsConsistent}
use fastapi_tenancy.Storage.Sql.{Codec, TenantModel, of_domain, exists}
use fastapi_tenancy.Storage.Sql.Rows.{Loads, table, row, get-table, to_domain-of_domain}
use fastapi_tenancy.Storage.Sql.Queries.{all_domain, count, is_nil, set_all, bulk_update_status}

text_eq-status : (a b : TenantStatus) → text_eq (status_value a) (status_value b) ≡ status_eq a b
unfolding status_value status_eq text_dec
text_eq-status TenantStatus.active TenantStatus.active = refl
text_eq-status TenantStatus.active TenantStatus.suspended = refl
text_eq-status TenantStatus.active TenantStatus.deleted = refl
text_eq-status TenantStatus.active TenantStatus.provisioning = refl
text_eq-status TenantStatus.suspended TenantStatus.active = refl
text_eq-status TenantStatus.suspended TenantStatus.suspended = refl
text_eq-status TenantStatus.suspended TenantStatus.deleted = refl
text_eq-status TenantStatus.suspended TenantStatus.provisioning = refl
text_eq-status TenantStatus.deleted TenantStatus.active = refl
text_eq-status TenantStatus.deleted TenantStatus.suspended = refl
text_eq-status TenantStatus.deleted TenantStatus.deleted = refl
text_eq-status TenantStatus.deleted TenantStatus.provisioning = refl
text_eq-status TenantStatus.provisioning TenantStatus.active = refl
text_eq-status TenantStatus.provisioning TenantStatus.suspended = refl
text_eq-status TenantStatus.provisioning TenantStatus.deleted = refl
text_eq-status TenantStatus.provisioning TenantStatus.provisioning = refl

-- A tenant that bulk_update_status reaches, or one that it leaves.
abbrev pub after_bulk : ℕ → Bool → TenantStatus → Option Tenant → Option Tenant
after_bulk now true st (some t) = some (with_status st now t)
after_bulk now _ st t = t

get-bulk_loop :
    (now : ℕ) (st : TenantStatus) (k : Text) (ids : List Text) (d : Dict Tenant)
    → get k (Store.bulk_loop now st ids d).1 ≡ after_bulk now (contains ids k) st (get k d)
unfolding Store.bulk_loop contains
get-bulk_loop now st k [] d = ground arith
get-bulk_loop now st k (i ∷ ids) d = elim (Option-cases (get i d)) [
  | inl e ↦ ground (arith, e, get-bulk_loop now st k ids d)
  | inr (t, e) ↦
      let d' = put i (with_status st now t) d in
      ground (arith, e, get-bulk_loop now st k ids d', get-put k i (with_status st now t) d)
]

-- Every tenant stands under its own id.
abbrev Keyed : Dict Tenant → Type 0
Keyed [] = Unit
Keyed ((k, t) ∷ d) = (t.id ≡ k) × Keyed d

Keyed-of :
    (d : Dict Tenant) → IsDict d → ((k : Text) (t : Tenant) → get k d ≡ some t → t.id ≡ k) → Keyed d
unfolding get
Keyed-of [] v h = tt
Keyed-of ((k, t) ∷ d) v h =
    (h k t (ground arith), Keyed-of d v.1 (λ j u g. h j u (ground (arith, g, v.0))))

-- The tenants of a dict after an update of those with the ids.
set_those : ℕ → List Text → TenantStatus → Dict Tenant → Dict Tenant
set_those now ids st [] = []
set_those now ids st ((k, t) ∷ d) =
    let rest = set_those now ids st d in
    if contains ids t.id then (k, with_status st now t) ∷ rest else (k, t) ∷ rest

get-set_those :
    (now : ℕ) (ids : List Text) (st : TenantStatus) (k : Text) (d : Dict Tenant)
    → Keyed d
    → get k (set_those now ids st d) ≡ after_bulk now (contains ids k) st (get k d)
unfolding set_those get
get-set_those now ids st k [] v = ground arith
get-set_those now ids st k ((j, t) ∷ d) v = ground (arith, get-set_those now ids st k d, v.0)

module _ {B : Type 0} (c : Codec B) where
  length-values : (d : Dict Tenant) → length (values (table c d)) ≡ length d
  length-values [] = refl
  length-values (e ∷ d) = omega (arith, length-values d)

  length-keep :
      (st : TenantStatus) (d : Dict Tenant)
      → length (keep (λ m. text_eq m.status (status_value st)) (values (table c d)))
        ≡ length (keep (λ t. status_eq t.status st) (values d))
  unfolding of_domain
  length-keep st [] = refl
  length-keep st ((k, t) ∷ d) = ground (arith, text_eq-status t.status st, length-keep st d)

  count_alike :
      (st : Option TenantStatus) (s : MemoryStore) → count st (table c s.tenants) ≡ Store.count s st
  unfolding count Store.count
  count_alike none s = length-values s.tenants
  count_alike (some st) s = length-keep st s.tenants

  set_all-table :
      (now : ℕ) (ids : List Text) (st : TenantStatus) (d : Dict Tenant)
      → set_all now ids st (table c d) ≡ table c (set_those now ids st d)
  unfolding set_all of_domain set_those
  set_all-table now ids st [] = refl
  set_all-table now ids st ((k, t) ∷ d) = ground (arith, set_all-table now ids st d)

  all_domain-table :
      (p : TenantModel B → Bool) (d : Dict Tenant)
      → Loads c
      → (ts : List Tenant) × (all_domain c (keep p (values (table c d))) ≡ ok ts)
  unfolding all_domain
  all_domain-table p [] l = ([], refl)
  all_domain-table p ((k, t) ∷ d) l =
      let (ts, e) = all_domain-table p d l in
      elim (Bool-cases (p (of_domain c t))) [
        | inl y ↦ (t ∷ ts, rw (y, all_domain, to_domain-of_domain c t l, e) refl)
        | inr n ↦ (ts, rw n e)
      ]

  bulk_alike :
      (now : ℕ) (ids : List Text) (st : TenantStatus) (k : Text) (d : Dict Tenant)
      → Loads c
      → Keyed d
      → get k (bulk_update_status c now ids st (table c d)).1
        ≡ row c (after_bulk now (contains ids k) st (get k d))
  unfolding bulk_update_status is_nil contains
  bulk_alike now [] st k d l v = ground (arith, get-table c k d)
  bulk_alike now (i ∷ ids) st k d l v =
      let d' = set_those now (i ∷ ids) st d in
      let (ts, e) = all_domain-table (λ m. contains (i ∷ ids) m.id) d' l in
      rw (set_all-table, e, get-table, get-set_those now (i ∷ ids) st k d v) refl

-- With metadata that json reads as it wrote them, on the table for the tenants of a consistent
-- in-memory store: exists and count answer as that store does, and bulk_update_status leaves
-- in each row what that store's leaves for the tenant.
pub batch_alike :
    {B : Type 0} (c : Codec B) (s : MemoryStore) (k : Text) (status : Option TenantStatus) (now : ℕ)
    (ids : List Text) (st : TenantStatus)
    → Loads c
    → IsConsistent s
    → (exists k (table c s.tenants) ≡ Store.exists s k)
      × (count status (table c s.tenants) ≡ Store.count s status)
      × (get k (bulk_update_status c now ids st (table c s.tenants)).1
          ≡ row c (get k (Store.bulk_update_status now ids st s).1.tenants))
unfolding exists Store.exists Store.bulk_update_status
batch_alike c s k status now ids st l v = (
  ground (arith, get-table c k s.tenants),
  count_alike c status s,
  bulk_alike c now ids st k s.tenants l (Keyed-of s.tenants v.tenants_dict v.under_id)
      ∙ ap (row c) (sym (get-bulk_loop now st k ids s.tenants)),
)
