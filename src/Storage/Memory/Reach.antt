-- ===== src/Storage/Memory/Reach.antt =====
-- Every sequence of calls of the methods that write, in any interleaving that the lock allows.
use fastapi_tenancy.Prelude.{ℕ, ◌≡◌, ◌≢◌, ◌↔◌, inl, inr, Text, some, List, arith, Option-cases}
use fastapi_tenancy.Prelude.Dict.{Dict, get, put, del, get-put}
use fastapi_tenancy.Core.Types.{Tenant, TenantStatus, Json}
use fastapi_tenancy.Core.Exceptions.{ok, raise, key_error}
use fastapi_tenancy.Storage.Memory.{
  MemoryStore, empty, create, update, delete, set_status, update_metadata, bulk_update_status,
  clear, get_by_identifier, subscript, stamped,
}
use fastapi_tenancy.Storage.Memory.Consistent.{
  IsConsistent, empty-IsConsistent, create-IsConsistent, delete-IsConsistent,
  set_status-IsConsistent, update_metadata-IsConsistent, bulk_update_status-IsConsistent,
}
use fastapi_tenancy.Storage.Memory.Rename.{IsFree, update-IsConsistent, reindex-renamed}

-- One call. An update must not take the identifier of another tenant.
pub data Call (s : MemoryStore) : MemoryStore → Type 0 where
  creates : (t : Tenant) → Call s (create t s).1
  updates : (now : ℕ) (t : Tenant) → IsFree t s → Call s (update now t s).1
  deletes : (k : Text) → Call s (delete k s).1
  sets_status : (now : ℕ) (k : Text) (st : TenantStatus) → Call s (set_status now k st s).1
  updates_metadata : (now : ℕ) (k : Text) (m : Dict Json) → Call s (update_metadata now k m s).1
  bulk_updates :
      (now : ℕ) (ids : List Text) (st : TenantStatus) → Call s (bulk_update_status now ids st s).1
  clears : Call s (clear s)

pub data Reach : MemoryStore → Type 0 where
  start : Reach empty
  next : {s u : MemoryStore} → Reach s → Call s u → Reach u

Call-IsConsistent : {s u : MemoryStore} → Call s u → IsConsistent s → IsConsistent u
unfolding clear
Call-IsConsistent (creates t) c = create-IsConsistent t c
Call-IsConsistent (updates now t free) c = update-IsConsistent now t free c
Call-IsConsistent (deletes k) c = delete-IsConsistent k c
Call-IsConsistent (sets_status now k st) c = set_status-IsConsistent now k st c
Call-IsConsistent (updates_metadata now k m) c = update_metadata-IsConsistent now k m c
Call-IsConsistent (bulk_updates now ids st) c = bulk_update_status-IsConsistent now ids st c
Call-IsConsistent clears c = empty-IsConsistent

-- Whatever the calls, in whatever order, so long as no update takes the identifier of another
-- tenant, the two indices agree and have the same number of entries.
pub Reach-IsConsistent : {s : MemoryStore} → Reach s → IsConsistent s
Reach-IsConsistent start = empty-IsConsistent
Reach-IsConsistent (next r call) = Call-IsConsistent call (Reach-IsConsistent r)

-- On a consistent store a lookup by identifier never raises KeyError, and returns a tenant exactly
-- when that tenant is stored under its id and has the identifier.
pub get_by_identifier_iff :
    (s : MemoryStore) (i : Text)
    → IsConsistent s
    → ((t : Tenant)
        → (get_by_identifier s i ≡ ok t) ↔ ((get t.id s.tenants ≡ some t) × (t.identifier ≡ i)))
      × (get_by_identifier s i ≢ raise key_error)
unfolding get_by_identifier subscript
get_by_identifier_iff s i c = elim (Option-cases (get i s.identifier_map)) [
  | inl e ↦
      rw (e, get_by_identifier)
        (λ t. (λ h. cc, λ h. ground (arith, c.indexed t.id t h.0, e)), λ h. cc)
  | inr (k, e) ↦
      rw (e, get_by_identifier)
        (
          λ t. (
            λ h. ground (arith, h, c.backed i k e, c.under_id k t),
            λ h. ground (arith, h, e, c.indexed t.id t),
          ),
          λ h. ground (arith, h, c.backed i k e),
        )
]

-- After an update that takes the identifier of another tenant the indices disagree.
pub update-steals :
    (now : ℕ) (t old : Tenant) (k : Text) (s : MemoryStore)
    → IsConsistent s
    → get t.id s.tenants ≡ some old
    → get t.identifier s.identifier_map ≡ some k
    → k ≢ t.id
    → ¬ IsConsistent (update now t s).1
unfolding update
update-steals now t old k s c e f other = λ bad.
    let own = c.indexed t.id old e in
    let differ : old.identifier ≢ t.identifier = λ p. ground arith in
    let broken = rw (e, reindex-renamed s.identifier_map old t t.id differ own, update) at bad in
    elim (Option-cases (get k s.tenants)) [
      | inl g ↦ ground (arith, g, c.backed t.identifier k f)
      | inr (u, g) ↦
          let held = c.backed t.identifier k f in
          let kept : get k (put t.id (stamped now t) s.tenants) ≡ some u =
            ground (arith, get-put k t.id (stamped now t) s.tenants) in
          ground (
            arith,
            held,
            broken.indexed k u kept,
            get-put u.identifier t.identifier t.id (del old.identifier s.identifier_map),
          )
    ]
