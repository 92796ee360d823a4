-- ===== src/Manager/CachingStore/Coherence.antt =====
-- manager.py: what cached entries have to do with the store.
use fastapi_tenancy.Prelude.{
  ◌≡◌, ℕ, ◌+◌, ◌*◌, Text, Option, none, some, arith, Option-cases, inl, inr,
}
use fastapi_tenancy.Prelude.Dict.{get, put, get-put, get-del, get-move_to_end}
use fastapi_tenancy.Core.Types.{Tenant}
use fastapi_tenancy.Core.Exceptions.{ok, Result-cases}
use fastapi_tenancy.Storage.Memory.{MemoryStore}
use fastapi_tenancy.Storage.Memory.Consistent.{IsConsistent}
use fastapi_tenancy.Storage.Memory.Effects.{Write, run, write-raise, write-stores}
use fastapi_tenancy.Cache.TenantCache as Cache
use fastapi_tenancy.Cache.TenantCache.{
  TenantCache, Entry, evict, make_room, unrename, stored, second,
}
use fastapi_tenancy.Cache.TenantCache.Valid.{IsValid}
use fastapi_tenancy.Cache.TenantCache.Reads.{get-make_room}
use fastapi_tenancy.Manager.CachingStore.{written, forget_old}

-- Every cached tenant is what the store has under its id.
abbrev pub Coherent : MemoryStore → TenantCache → Type 0
Coherent s l1 = (k : Text) (e : Entry) → get k l1.by_id ≡ some e → get k s.tenants ≡ some e.tenant

-- The entries of `l1` are entries of `l2`.
abbrev pub Within : TenantCache → TenantCache → Type 0
Within l1 l2 = (k : Text) (e : Entry) → get k l1.by_id ≡ some e → get k l2.by_id ≡ some e

pub Within-Coherent :
    (s : MemoryStore) (l1 l2 : TenantCache) → Within l1 l2 → Coherent s l2 → Coherent s l1
Within-Coherent s l1 l2 w c k e h = c k e (w k e h)

pub evict-Within : (j : Text) (l : TenantCache) → Within (evict j l).1 l
unfolding evict
evict-Within j l k e h = ground (arith, get-del k j l.by_id)

pub lookup-Within : (now : ℕ) (j : Text) (l : TenantCache) → Within (Cache.lookup now j l).1 l
unfolding Cache.lookup evict
lookup-Within now j l k e h = ground (arith, get-del k j l.by_id, get-move_to_end k j l.by_id)

pub get_by_identifier-Within :
    (now : ℕ) (i : Text) (l : TenantCache) → Within (Cache.get_by_identifier now i l).1 l
unfolding Cache.get_by_identifier
get_by_identifier-Within now i l = elim (Option-cases (get i l.id_by_ident)) [
  | inl e ↦ rw (e, Cache.get_by_identifier) (λ k x h. h)
  | inr (j, e) ↦ rw (e, Cache.get_by_identifier) (lookup-Within now j l)
]

pub invalidate_by_identifier-Within :
    (i : Text) (l : TenantCache) → Within (Cache.invalidate_by_identifier i l).1 l
unfolding Cache.invalidate_by_identifier
invalidate_by_identifier-Within i l = elim (Option-cases (get i l.id_by_ident)) [
  | inl e ↦ rw (e, Cache.invalidate_by_identifier) (λ k x h. h)
  | inr (j, e) ↦ rw (e, Cache.invalidate_by_identifier) (evict-Within j l)
]

pub forget_old-Within :
    (o : Option Tenant) (t : Tenant) (l : TenantCache) → Within (forget_old o t l) l
unfolding forget_old
forget_old-Within none t l k e h = h
forget_old-Within (some old) t l k e h =
    ground (arith, invalidate_by_identifier-Within old.identifier l k e)

-- After a set, an entry is the new one or was there.
pub set-Coherent :
    (now : ℕ) (t : Tenant) (s : MemoryStore) (l : TenantCache)
    → IsValid l
    → get t.id s.tenants ≡ some t
    → Coherent s l
    → Coherent s (Cache.set now t l)
unfolding Cache.set
set-Coherent now t s l v held c k e h =
    let l' : TenantCache = record l { id_by_ident = unrename t l } in
    let r = make_room t l' in
    let x : Entry = record { tenant = t; expires_at = now + r.ttl * second } in
    ground (
      arith,
      get-move_to_end k t.id (put t.id x r.by_id),
      get-put k t.id x r.by_id,
      get-make_room k t l' v.dict,
      c k e,
    )

pub written-Coherent :
    (w : Write) (key : Tenant → Text) (s : MemoryStore) (l : TenantCache)
    → IsConsistent s
    → ((t : Tenant) → (run w s).0 ≡ ok t → key t ≡ t.id)
    → Coherent s l
    → Coherent (written key (run w s) l).1.store (written key (run w s) l).1.l1
unfolding written Cache.invalidate evict
written-Coherent w key s l cons keyed c = elim (Result-cases (run w s).0) [
  | inr (x, f) ↦ λ k e h. ground (arith, f, write-raise w s x f, c k e)
  | inl (t, f) ↦ λ k e h.
      ground (arith, f, keyed t f, get-del k (key t) l.by_id, write-stores w s t k cons f, c k e)
]
