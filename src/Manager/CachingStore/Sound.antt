-- ===== src/Manager/CachingStore/Sound.antt =====
-- manager.py: the invariant of _CachingStoreProxy, method by method.
use fastapi_tenancy.Prelude.{
  ◌≡◌, refl, sym, ◌∙◌, ℕ, Text, text_dec, Option, none, some, if_pos, if_neg, arith, Option-cases,
  inl, inr,
}
use fastapi_tenancy.Prelude.Dict.{get, get-del}
use fastapi_tenancy.Core.Types.{Tenant, TenantStatus}
use fastapi_tenancy.Core.Exceptions.{Result, ok, Result-cases}
use fastapi_tenancy.Storage.Memory as Store
use fastapi_tenancy.Storage.Memory.{MemoryStore, empty}
use fastapi_tenancy.Storage.Memory.Consistent.{
  IsConsistent, create-IsConsistent, set_status-IsConsistent, delete-IsConsistent,
}
use fastapi_tenancy.Storage.Memory.Rename.{IsFree, update-IsConsistent}
use fastapi_tenancy.Storage.Memory.Effects.{Write, delete-removes, delete-raise}
use fastapi_tenancy.Storage.Memory.Effects as Effects
use fastapi_tenancy.Storage.Memory.Reach.{get_by_identifier_iff}
use fastapi_tenancy.Cache.TenantCache as Cache
use fastapi_tenancy.Cache.TenantCache.{TenantCache, Entry, evict}
use fastapi_tenancy.Cache.TenantCache.Valid.{IsValid, evict-IsValid, lookup-IsValid, set-IsValid}
use fastapi_tenancy.Cache.TenantCache.Run.{
  get_by_identifier-IsValid, invalidate_by_identifier-IsValid,
}
use fastapi_tenancy.Cache.TenantCache.Reads.{lookup-fresh, get_by_identifier_sound}
use fastapi_tenancy.Manager.CachingStore.{
  CachingStoreProxy, populate, get_by_identifier, written, create, forget_old, update, set_status,
  delete,
}
use fastapi_tenancy.Manager.CachingStore.Coherence.{
  Coherent, Within-Coherent, lookup-Within, get_by_identifier-Within, forget_old-Within,
  set-Coherent, written-Coherent,
}

pub record IsSound (p : CachingStoreProxy) : Type 0 where
  pub consistent : IsConsistent p.store
  pub valid : IsValid p.l1
  pub coherent : Coherent p.store p.l1

-- Where a lookup in the cache by identifier gives a tenant, the store gives the same.
pub cached-store :
    (now : ℕ) (i : Text) (t : Tenant) (p : CachingStoreProxy)
    → IsSound p
    → (Cache.get_by_identifier now i p.l1).0 ≡ some t
    → Store.get_by_identifier p.store i ≡ ok t
cached-store now i t p v h =
    let (ident, found) = get_by_identifier_sound now i p.l1 t v.valid h in
    let shown = sym (lookup-fresh now t.id p.l1) ∙ found in
    let iff = (get_by_identifier_iff p.store i v.consistent).0 t in
    elim (Option-cases (get t.id p.l1.by_id)) [
      | inl e ↦ ground (arith, e)
      | inr (x, e) ↦ ground (arith, e, v.coherent t.id x e, iff)
    ]

pub looked-IsSound :
    (now : ℕ) (i : Text) (p : CachingStoreProxy)
    → IsSound p
    → IsSound (record p { l1 = (Cache.get_by_identifier now i p.l1).1 })
looked-IsSound now i p v = record {
  consistent = v.consistent;
  valid = get_by_identifier-IsValid now i v.valid;
  coherent =
      Within-Coherent p.store (Cache.get_by_identifier now i p.l1).1 p.l1
        (get_by_identifier-Within now i p.l1) v.coherent;
}

pub get_by_identifier-IsSound :
    (now later : ℕ) (i : Text) (p : CachingStoreProxy)
    → IsSound p
    → IsSound (get_by_identifier now later i p).1
unfolding get_by_identifier populate
get_by_identifier-IsSound now later i p v =
    let l = (Cache.get_by_identifier now i p.l1).1 in
    let kept = looked-IsSound now i p v in
    elim (Option-cases (Cache.get_by_identifier now i p.l1).0) [
      | inr (t, e) ↦ rw (e, get_by_identifier) kept
      | inl e ↦ elim (Result-cases (Store.get_by_identifier p.store i)) [
        | inr (x, f) ↦ rw (e, f, get_by_identifier) kept
        | inl (t, f) ↦
            rw (e, f, get_by_identifier)
              (record {
                consistent = v.consistent;
                valid = set-IsValid later t kept.valid;
                coherent =
                    set-Coherent later t p.store l kept.valid
                      (((get_by_identifier_iff p.store i v.consistent).0 t).0 f).0 kept.coherent;
              })
      ]
    ]

written-IsValid :
    (key : Tenant → Text) (outcome : Result Tenant × MemoryStore) {l : TenantCache}
    → IsValid l
    → IsValid (written key outcome l).1.l1
unfolding written Cache.invalidate
written-IsValid key outcome v = elim (Result-cases outcome.0) [
  | inr (x, f) ↦ rw (f, written) v
  | inl (t, f) ↦ rw (f, written) (evict-IsValid (key t) v)
]

pub written-store :
    (key : Tenant → Text) (outcome : Result Tenant × MemoryStore) (l : TenantCache)
    → (written key outcome l).1.store ≡ outcome.1
unfolding written
written-store key outcome l = ground arith

written-IsSound :
    (w : Write) (key : Tenant → Text) (s : MemoryStore) (l : TenantCache)
    → IsConsistent s
    → IsConsistent (Effects.run w s).1
    → IsValid l
    → Coherent s l
    → ((t : Tenant) → (Effects.run w s).0 ≡ ok t → key t ≡ t.id)
    → IsSound (written key (Effects.run w s) l).1
written-IsSound w key s l cons cons' v c keyed = record {
  consistent = rw (written-store key (Effects.run w s) l) cons';
  valid = written-IsValid key (Effects.run w s) v;
  coherent = written-Coherent w key s l cons keyed c;
}

pub create-IsSound : (t : Tenant) (p : CachingStoreProxy) → IsSound p → IsSound (create t p).1
unfolding create
create-IsSound t p v =
    written-IsSound (Write.creates t) (λ u. u.id) p.store p.l1 v.consistent
      (create-IsConsistent t v.consistent) v.valid v.coherent (λ u h. refl)

forget_old-IsValid :
    (o : Option Tenant) (t : Tenant) {l : TenantCache} → IsValid l → IsValid (forget_old o t l)
unfolding forget_old
forget_old-IsValid none t v = v
forget_old-IsValid (some old) t v = elim (text_dec old.identifier t.identifier) [
  | yes e ↦ rw (if_pos _ e) v
  | no n ↦ rw (if_neg _ n) (invalidate_by_identifier-IsValid old.identifier v)
]

pub update-IsSound :
    (now stamp : ℕ) (t : Tenant) (p : CachingStoreProxy)
    → IsFree t p.store
    → IsSound p
    → IsSound (update now stamp t p).1
unfolding update
update-IsSound now stamp t p free v =
    let found = Cache.lookup now t.id p.l1 in
    let l = forget_old found.0 t found.1 in
    let looked = Within-Coherent p.store found.1 p.l1 (lookup-Within now t.id p.l1) v.coherent in
    written-IsSound (Write.updates stamp t) (λ u. u.id) p.store l v.consistent
      (update-IsConsistent stamp t free v.consistent)
      (forget_old-IsValid found.0 t (lookup-IsValid now t.id v.valid))
      (Within-Coherent p.store l found.1 (forget_old-Within found.0 t found.1) looked) (λ u h. refl)

set_status-id :
    (stamp : ℕ) (k : Text) (st : TenantStatus) (s : MemoryStore) (t : Tenant)
    → IsConsistent s
    → (Store.set_status stamp k st s).0 ≡ ok t
    → k ≡ t.id
unfolding Store.set_status
set_status-id stamp k st s t c h = elim (Option-cases (get k s.tenants)) [
  | inl e ↦ ground (arith, e)
  | inr (u, e) ↦ ground (arith, e, c.under_id k u e)
]

pub set_status-IsSound :
    (stamp : ℕ) (k : Text) (st : TenantStatus) (p : CachingStoreProxy)
    → IsSound p
    → IsSound (set_status stamp k st p).1
unfolding set_status
set_status-IsSound stamp k st p v =
    written-IsSound (Write.sets_status stamp k st) (λ _. k) p.store p.l1 v.consistent
      (set_status-IsConsistent stamp k st v.consistent) v.valid v.coherent
      (λ t h. set_status-id stamp k st p.store t v.consistent h)

deleted-Coherent :
    (k : Text) (s : MemoryStore) (l : TenantCache)
    → (Store.delete k s).0 ≡ ok tt
    → Coherent s l
    → Coherent (Store.delete k s).1 (Cache.invalidate k l).1
unfolding Cache.invalidate evict
deleted-Coherent k s l h c j e g =
    ground (arith, get-del j k l.by_id, delete-removes k s j h, c j e)

pub delete-IsSound : (k : Text) (p : CachingStoreProxy) → IsSound p → IsSound (delete k p).1
unfolding delete Cache.invalidate
delete-IsSound k p v =
    let cons = delete-IsConsistent k v.consistent in
    elim (Result-cases (Store.delete k p.store).0) [
      | inr (x, f) ↦
          rw (f, delete)
            (record {
              consistent = cons;
              valid = v.valid;
              coherent = rw (delete-raise k p.store x f) v.coherent;
            })
      | inl (tt, f) ↦
          rw (f, delete)
            (record {
              consistent = cons;
              valid = evict-IsValid k v.valid;
              coherent = deleted-Coherent k p.store p.l1 f v.coherent;
            })
    ]
