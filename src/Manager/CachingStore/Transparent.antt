-- ===== src/Manager/CachingStore/Transparent.antt =====
-- manager.py: lookups through _CachingStoreProxy against those of the store alone.
use fastapi_tenancy.Prelude.{◌≡◌, refl, ℕ, ◌+◌, ◌*◌, ◌≤◌, Text, some, arith, Option-cases, inl, inr}
use fastapi_tenancy.Prelude.Dict.{Dict, get, get-put}
use fastapi_tenancy.Core.Types.{Tenant, TenantStatus, Json}
use fastapi_tenancy.Core.Exceptions.{ok, Result-cases}
use fastapi_tenancy.Storage.Memory as Store
use fastapi_tenancy.Storage.Memory.{MemoryStore, empty, with_metadata, with_status}
use fastapi_tenancy.Storage.Memory.Consistent.{
  IsConsistent, empty-IsConsistent, set_status-IsConsistent, update_metadata-IsConsistent,
}
use fastapi_tenancy.Storage.Memory.Rename.{IsFree}
use fastapi_tenancy.Storage.Memory.Reach.{get_by_identifier_iff}
use fastapi_tenancy.Cache.TenantCache as Cache
use fastapi_tenancy.Cache.TenantCache.{TenantCache, Entry, second}
use fastapi_tenancy.Cache.TenantCache.Valid.{init-IsValid}
use fastapi_tenancy.Cache.TenantCache.Reads.{get_by_identifier-set}
use fastapi_tenancy.Manager.CachingStore.{
  CachingStoreProxy, populate, get_by_identifier, create, update, set_status, delete,
  update_metadata,
}
use fastapi_tenancy.Manager.CachingStore.Sound.{
  IsSound, written-store, cached-store, get_by_identifier-IsSound, looked-IsSound, create-IsSound,
  update-IsSound, set_status-IsSound, delete-IsSound,
}
use fastapi_tenancy.Manager.CachingStore.Coherence.{Coherent}

-- One call of a method that the proxy overrides, or a lookup up to its await. An update must not take
-- the identifier of another tenant.
pub data Call (p : CachingStoreProxy) : CachingStoreProxy → Type 0 where
  gets : (now later : ℕ) (i : Text) → Call p (get_by_identifier now later i p).1
  awaits : (now : ℕ) (i : Text) → Call p (record p { l1 = (Cache.get_by_identifier now i p.l1).1 })
  creates : (t : Tenant) → Call p (create t p).1
  updates : (now stamp : ℕ) (t : Tenant) → IsFree t p.store → Call p (update now stamp t p).1
  sets_status : (stamp : ℕ) (k : Text) (st : TenantStatus) → Call p (set_status stamp k st p).1
  deletes : (k : Text) → Call p (delete k p).1

-- From a new cache in front of an empty store.
pub data Reach (max_size ttl : ℕ) : CachingStoreProxy → Type 0 where
  start :
      (l : TenantCache)
      → Cache.init max_size ttl ≡ ok l
      → Reach max_size ttl (record { store = empty; l1 = l })
  next : {p q : CachingStoreProxy} → Reach max_size ttl p → Call p q → Reach max_size ttl q

Call-IsSound : {p q : CachingStoreProxy} → Call p q → IsSound p → IsSound q
Call-IsSound {p} (gets now later i) v = get_by_identifier-IsSound now later i p v
Call-IsSound {p} (awaits now i) v = looked-IsSound now i p v
Call-IsSound {p} (creates t) v = create-IsSound t p v
Call-IsSound {p} (updates now stamp t f) v = update-IsSound now stamp t p f v
Call-IsSound {p} (sets_status stamp k st) v = set_status-IsSound stamp k st p v
Call-IsSound {p} (deletes k) v = delete-IsSound k p v

init-Coherent : (m n : ℕ) (l : TenantCache) → Cache.init m n ≡ ok l → Coherent empty l
unfolding Cache.init get
init-Coherent m n l h k e g = ground arith

pub Reach-IsSound : {m n : ℕ} {p : CachingStoreProxy} → Reach m n p → IsSound p
Reach-IsSound {m} {n} (start l h) = record {
  consistent = empty-IsConsistent;
  valid = init-IsValid m n h;
  coherent = init-Coherent m n l h;
}
Reach-IsSound (next r c) = Call-IsSound c (Reach-IsSound r)

answers :
    (now later : ℕ) (i : Text) (p : CachingStoreProxy)
    → IsSound p
    → ((get_by_identifier now later i p).0 ≡ Store.get_by_identifier p.store i)
      × ((get_by_identifier now later i p).1.store ≡ p.store)
unfolding get_by_identifier
answers now later i p v = elim (Option-cases (Cache.get_by_identifier now i p.l1).0) [
  | inr (t, e) ↦ ground (arith, e, cached-store now i t p v e)
  | inl e ↦ elim (Result-cases (Store.get_by_identifier p.store i)) [
    | inl (t, f) ↦ ground (arith, e, f)
    | inr (x, f) ↦ ground (arith, e, f)
  ]
]

-- For the proxy over an in-memory store, after calls of the methods that it overrides, from an empty
-- store, strictly one after the other and at any times, where no update takes an identifier that
-- another tenant holds: a lookup by identifier answers exactly as the store alone would, raised
-- errors included, and leaves the store as it is.
pub get_by_identifier-get_by_identifier :
    {m n : ℕ} (now later : ℕ) (i : Text) (p : CachingStoreProxy)
    → Reach m n p
    → ((get_by_identifier now later i p).0 ≡ Store.get_by_identifier p.store i)
      × ((get_by_identifier now later i p).1.store ≡ p.store)
get_by_identifier-get_by_identifier now later i p r = answers now later i p (Reach-IsSound r)

updated_metadata :
    (stamp : ℕ) (metadata : Dict Json) (t : Tenant) (i : Text) (s : MemoryStore)
    → IsConsistent s
    → Store.get_by_identifier s i ≡ ok t
    → Store.get_by_identifier (Store.update_metadata stamp t.id metadata s).1 i
      ≡ ok (with_metadata metadata stamp t)
unfolding Store.update_metadata
updated_metadata stamp metadata t i s c h =
    let (held, ident) = ((get_by_identifier_iff s i c).0 t).0 h in
    let u : Tenant = with_metadata metadata stamp t in
    let kept = update_metadata-IsConsistent stamp t.id metadata c in
    ((get_by_identifier_iff (Store.update_metadata stamp t.id metadata s).1 i kept).0 u).1
      (ground (arith, held, get-put t.id t.id u s.tenants), ident)

-- update_metadata, which the proxy does not override, makes a cached tenant stale: after it a lookup
-- by identifier still returns the old version, and the store alone returns the one with the new
-- metadata.
pub update_metadata_stale :
    {m n : ℕ} (now later stamp : ℕ) (i : Text) (metadata : Dict Json) (t : Tenant)
    (p : CachingStoreProxy)
    → Reach m n p
    → (Cache.get_by_identifier now i p.l1).0 ≡ some t
    → ((get_by_identifier now later i (update_metadata stamp t.id metadata p).1).0 ≡ ok t)
      × (Store.get_by_identifier (update_metadata stamp t.id metadata p).1.store i
          ≡ ok (with_metadata metadata stamp t))
unfolding get_by_identifier update_metadata
update_metadata_stale now later stamp i metadata t p r h =
    let v = Reach-IsSound r in
    (
      ground (arith, h),
      updated_metadata stamp metadata t i p.store v.consistent (cached-store now i t p v h),
    )

updated_status :
    (stamp : ℕ) (st : TenantStatus) (t : Tenant) (s : MemoryStore)
    → IsConsistent s
    → Store.get_by_identifier s t.identifier ≡ ok t
    → Store.get_by_identifier (Store.set_status stamp t.id st s).1 t.identifier
      ≡ ok (with_status st stamp t)
unfolding Store.set_status
updated_status stamp st t s c h =
    let (held, ident) = ((get_by_identifier_iff s t.identifier c).0 t).0 h in
    let u : Tenant = with_status st stamp t in
    let kept = set_status-IsConsistent stamp t.id st c in
    let now_held =
      (get_by_identifier_iff (Store.set_status stamp t.id st s).1 t.identifier kept).0 u in
    now_held.1 (ground (arith, held, get-put t.id t.id u s.tenants), refl)

-- When a status change runs while a lookup awaits the store's answer `t`, the lookup then puts that
-- answer into the cache: until it expires, lookups by identifier return it, with the old status,
-- and the store alone returns the new one.
pub populate_stale :
    {m n : ℕ} (now later after stamp : ℕ) (st : TenantStatus) (t : Tenant) (p : CachingStoreProxy)
    → Reach m n p
    → Store.get_by_identifier p.store t.identifier ≡ ok t
    → now ≤ later + (set_status stamp t.id st p).1.l1.ttl * second
    → ((get_by_identifier now after t.identifier
          (populate later t (set_status stamp t.id st p).1)).0
        ≡ ok t)
      × (Store.get_by_identifier
            (populate later t (set_status stamp t.id st p).1).store
            t.identifier
          ≡ ok (with_status st stamp t))
unfolding get_by_identifier populate
populate_stale now later after stamp st t p r h fresh =
    let v = Reach-IsSound r in
    let q = (set_status stamp t.id st p).1 in
    let w = set_status-IsSound stamp t.id st p v in
    (
      ground (arith, get_by_identifier-set later now t q.l1 w.valid),
      unfold set_status in
          rw (written-store (λ _. t.id) (Store.set_status stamp t.id st p.store) p.l1)
            (updated_status stamp st t p.store v.consistent h),
    )
