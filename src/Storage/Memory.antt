-- ===== src/Storage/Memory.antt =====
-- storage/memory.py: InMemoryTenantStore. A method that writes returns its result beside the new
-- store; what it wrote before an error stays. The lock is held from the first read to the last
-- write of each such method, so that each is one step. The clock's reading is an argument.
pub mod Consistent
pub mod Rename
pub mod Reach
pub mod Listing
pub mod Batch
pub mod Effects
pub mod Search
pub mod Counts
pub mod Stored
use fastapi_tenancy.Prelude.{
  ℕ, ◌+◌, Text, text_dec, Option, none, some, List, [], ◌∷◌, ◌++◌, Bool, true, false, ◌&&◌, ◌||◌,
  text_eq, starts_with, is_infix, length, take, drop, keep, ite, if◌then◌else◌,
}
use fastapi_tenancy.Prelude.Dict.{Dict, get, put, del, values}
use fastapi_tenancy.Prelude.Sorting.{sort_desc}
use fastapi_tenancy.Storage.TenantStore.{found_in}
use fastapi_tenancy.Core.Types.{Tenant, TenantStatus, Json, status_eq, status_value}
use fastapi_tenancy.Core.Exceptions.{Result, ok, raise, tenant_not_found, value_error, key_error}

pub record MemoryStore : Type 0 where
  pub tenants : Dict Tenant
  pub identifier_map : Dict Text

abbrev pub empty : MemoryStore
empty = record { tenants = []; identifier_map = [] }

unfoldable pub get_by_id : MemoryStore → Text → Result Tenant
get_by_id s tenant_id = elim (get tenant_id s.tenants) [
  | none ↦ raise (tenant_not_found (some tenant_id))
  | some t ↦ ok t
]

-- self._tenants[tenant_id]
unfoldable pub subscript : Dict Tenant → Text → Result Tenant
subscript d k = elim (get k d) [ none ↦ raise key_error | some t ↦ ok t ]

unfoldable pub get_by_identifier : MemoryStore → Text → Result Tenant
unfolding subscript
get_by_identifier s identifier = elim (get identifier s.identifier_map) [
  | none ↦ raise (tenant_not_found (some identifier))
  | some tenant_id ↦ subscript s.tenants tenant_id
]

-- The status filter of list and count.
abbrev pub filter_status : Option TenantStatus → List Tenant → List Tenant
filter_status none ts = ts
filter_status (some st) ts = keep (λ t. status_eq t.status st) ts

unfoldable pub list : MemoryStore → ℕ → ℕ → Option TenantStatus → List Tenant
list s skip limit status =
    take limit (drop skip (sort_desc (λ t. t.created_at) (filter_status status (values s.tenants))))

unfoldable pub count : MemoryStore → Option TenantStatus → ℕ
count s none = length s.tenants
count s (some st) = length (keep (λ t. status_eq t.status st) (values s.tenants))

unfoldable pub exists : MemoryStore → Text → Bool
exists s tenant_id = elim (get tenant_id s.tenants) [ none ↦ false | some _ ↦ true ]

unfoldable pub get_by_ids : MemoryStore → List Text → List Tenant
get_by_ids s [] = []
get_by_ids s (tid ∷ rest) =
    let found = get_by_ids s rest in elim (get tid s.tenants) [ none ↦ found | some t ↦ t ∷ found ]

abbrev pub Step : Type 0 → Type 0
Step A = MemoryStore → Result A × MemoryStore

unfoldable pub create : Tenant → Step Tenant
create t s = elim (get t.id s.tenants) [
  | some _ ↦ (raise value_error, s)
  | none ↦ elim (get t.identifier s.identifier_map) [
    | some _ ↦ (raise value_error, s)
    | none ↦ (
      ok t,
      record {
        tenants = put t.id t s.tenants;
        identifier_map = put t.identifier t.id s.identifier_map;
      },
    )
  ]
]

-- The index after an update: a `del` of a key that is not there raises KeyError.
unfoldable pub reindex : Dict Text → Tenant → Tenant → Result (Dict Text)
reindex m old t = ite (text_dec old.identifier t.identifier) (ok m) (elim (get old.identifier m) [
  | none ↦ raise key_error
  | some _ ↦ ok (put t.identifier t.id (del old.identifier m))
])

abbrev pub stamped : ℕ → Tenant → Tenant
stamped now t = record t { updated_at = now }

unfoldable pub update : ℕ → Tenant → Step Tenant
update now t s = elim (get t.id s.tenants) [
  | none ↦ (raise (tenant_not_found (some t.id)), s)
  | some old ↦ elim (reindex s.identifier_map old t) [
    | raise e ↦ (raise e, s)
    | ok m ↦ (
      ok (stamped now t),
      record { tenants = put t.id (stamped now t) s.tenants; identifier_map = m },
    )
  ]
]

unfoldable pub delete : Text → Step (Unit {0})
delete tenant_id s = elim (get tenant_id s.tenants) [
  | none ↦ (raise (tenant_not_found (some tenant_id)), s)
  | some t ↦ elim (get t.identifier s.identifier_map) [
    | none ↦ (raise key_error, s)
    | some _ ↦ (
      ok tt,
      record {
        tenants = del tenant_id s.tenants;
        identifier_map = del t.identifier s.identifier_map;
      },
    )
  ]
]

abbrev pub with_status : TenantStatus → ℕ → Tenant → Tenant
with_status status now t = record t { status = status; updated_at = now }

unfoldable pub set_status : ℕ → Text → TenantStatus → Step Tenant
set_status now tenant_id status s = elim (get tenant_id s.tenants) [
  | none ↦ (raise (tenant_not_found (some tenant_id)), s)
  | some t ↦ (
    ok (with_status status now t),
    record s { tenants = put tenant_id (with_status status now t) s.tenants },
  )
]

-- {**old, **new}
unfoldable pub merge : Dict Json → Dict Json → Dict Json
merge old [] = old
merge old ((k, v) ∷ new) = merge (put k v old) new

abbrev pub with_metadata : Dict Json → ℕ → Tenant → Tenant
with_metadata metadata now t = record t { metadata = merge t.metadata metadata; updated_at = now }

unfoldable pub update_metadata : ℕ → Text → Dict Json → Step Tenant
update_metadata now tenant_id metadata s = elim (get tenant_id s.tenants) [
  | none ↦ (raise (tenant_not_found (some tenant_id)), s)
  | some t ↦ (
    ok (with_metadata metadata now t),
    record s { tenants = put tenant_id (with_metadata metadata now t) s.tenants },
  )
]

-- The loop of bulk_update_status: the updated tenants, and the dictionary after it.
unfoldable pub bulk_loop : ℕ → TenantStatus → List Text → Dict Tenant → List Tenant × Dict Tenant
bulk_loop now status [] d = ([], d)
bulk_loop now status (tid ∷ rest) d = elim (get tid d) [
  | none ↦ bulk_loop now status rest d
  | some t ↦
      let (updated, d') = bulk_loop now status rest (put tid (with_status status now t) d) in
      (with_status status now t ∷ updated, d')
]

unfoldable pub bulk_update_status :
    ℕ → List Text → TenantStatus → MemoryStore → List Tenant × MemoryStore
unfolding bulk_loop
bulk_update_status now ids status s =
    let (updated, d) = bulk_loop now status ids s.tenants in (updated, record s { tenants = d })

unfoldable pub clear : MemoryStore → MemoryStore
clear s = empty

-- The sort key of search: a triple of Booleans, as the number that orders like it.
abbrev pub rank : (Text → Text) → Text → Tenant → ℕ
rank lower q t =
    (if text_eq (lower t.identifier) q then 4 else 0)
    + ((if starts_with q (lower t.identifier) then 2 else 0)
        + (if is_infix q (lower t.name) then 1 else 0))

unfoldable pub search : (Text → Text) → MemoryStore → Text → ℕ → List Tenant
search lower s query limit =
    let q = lower query in
    take limit (sort_desc (rank lower q) (keep (found_in lower q) (values s.tenants)))

pub record Statistics : Type 0 where
  pub total : ℕ
  pub by_status : Dict ℕ
  pub identifier_index_size : ℕ

-- d[key] = d.get(key, 0) + 1
abbrev pub bump : Text → Dict ℕ → Dict ℕ
bump key d = put key (elim (get key d) [ none ↦ 0 | some n ↦ n ] + 1) d

unfoldable pub tally : List Tenant → Dict ℕ → Dict ℕ
tally [] d = d
tally (t ∷ ts) d = tally ts (bump (status_value t.status) d)

unfoldable pub statistics : MemoryStore → Statistics
unfolding tally
statistics s = record {
  total = length s.tenants;
  by_status = tally (values s.tenants) [];
  identifier_index_size = length s.identifier_map;
}
