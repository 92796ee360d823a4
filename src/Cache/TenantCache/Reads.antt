-- ===== src/Cache/TenantCache/Reads.antt =====
-- What TenantCache returns after the methods that write.
use native.Mathlib.Nat.{div-lt_iff_lt-mul}
use fastapi_tenancy.Prelude.{
  ℕ, ◌+◌, ◌*◌, ◌/◌, ◌≤◌, ◌<◌, ◌≡◌, refl, ◌∙◌, Text, text_dec, Option, none, some, [], ◌∷◌, Bool,
  true, false, length, ite, leb, ltb, ◌&&◌, not, arith, Option-cases, inl, inr, Bool-cases,
  if◌then◌else◌,
}
use fastapi_tenancy.Prelude.Dict.{Dict, IsDict, get, put, get-put, get-del, get-move_to_end}
use fastapi_tenancy.Core.Types.{Tenant}
use fastapi_tenancy.Cache.TenantCache.{
  Entry, TenantCache, evict, evict_first, evict_lru, lookup, expired, get_by_identifier, unrename,
  has, make_room, set, second, hit_rate_pct, invalidate,
}
use fastapi_tenancy.Cache.TenantCache.Valid.{IsValid}

-- The tenant of an entry that has not expired.
abbrev pub fresh : ℕ → Option Entry → Option Tenant
fresh now none = none
fresh now (some e) = if expired now e then none else some e.tenant

pub lookup-fresh :
    (now : ℕ) (k : Text) (c : TenantCache) → (lookup now k c).0 ≡ fresh now (get k c.by_id)
unfolding lookup
lookup-fresh now k c = ground arith

-- A lookup does not change what any later lookup returns.
pub lookup-lookup :
    (now later : ℕ) (k j : Text) (c : TenantCache)
    → now ≤ later
    → (lookup later j (lookup now k c).1).0 ≡ (lookup later j c).0
unfolding lookup evict
lookup-lookup now later k j c h = ground (arith, get-move_to_end j k c.by_id, get-del j k c.by_id)

abbrev pub first_key : Dict Entry → Option Text
first_key [] = none
first_key ((k, e) ∷ d) = some k

-- Storing a new tenant in a full cache evicts the entry that was used least recently.
abbrev pub evicts : Tenant → TenantCache → Text → Bool
evicts t c k =
    (leb c.max_size (length c.by_id) && not (has t.id c.by_id))
    && (elim (first_key c.by_id) [ none ↦ false | some j ↦ ite (text_dec j k) true false ])

get-evict_first :
    (j : Text) (d : Dict Entry) (c : TenantCache)
    → c.by_id ≡ d
    → IsDict d
    → get j (evict_first d c).by_id
      ≡ elim (first_key d) [ none ↦ get j d | some k ↦ ite (text_dec k j) none (get j d) ]
unfolding evict_first get
get-evict_first j [] c p h = rw p
get-evict_first j ((k, e) ∷ d) c p h = ground (arith, h.0)

pub get-make_room :
    (j : Text) (t : Tenant) (c : TenantCache)
    → IsDict c.by_id
    → get j (make_room t c).by_id ≡ (if evicts t c j then none else get j c.by_id)
unfolding make_room evict_lru
get-make_room j t c h = ground (arith, get-evict_first j c.by_id c refl h)

ttl-evict_first : (d : Dict Entry) (c : TenantCache) → (evict_first d c).ttl ≡ c.ttl
unfolding evict_first
ttl-evict_first [] c = refl
ttl-evict_first ((k, e) ∷ d) c = refl

ttl-make_room : (t : Tenant) (c : TenantCache) → (make_room t c).ttl ≡ c.ttl
unfolding make_room evict_lru
ttl-make_room t c = ground (arith, ttl-evict_first c.by_id c)

-- A stored tenant is returned up to `ttl` seconds later and no longer. Of the other tenants only
-- the one that is evicted is lost, and the rest is returned as before.
pub lookup-set :
    (now later : ℕ) (t : Tenant) (k : Text) (c : TenantCache)
    → IsValid c
    → (lookup later k (set now t c)).0
      ≡ ite
          (text_dec t.id k)
          (if leb later (now + c.ttl * second) then some t else none)
          (if evicts t c k then none else (lookup later k c).0)
lookup-set now later t k c v =
    let c' : TenantCache = record c { id_by_ident = unrename t c } in
    let r = make_room t c' in
    let e : Entry = record { tenant = t; expires_at = now + r.ttl * second } in
    lookup-fresh later k (set now t c)
    ∙ unfold set in
      ground (
        arith,
        lookup-fresh later k c,
        get-move_to_end k t.id (put t.id e r.by_id),
        get-put k t.id e r.by_id,
        get-make_room k t c' v.dict,
        ttl-make_room t c',
      )

-- What a lookup by identifier returns has that identifier, and a lookup by its id returns it too.
pub get_by_identifier_sound :
    (now : ℕ) (i : Text) (c : TenantCache) (t : Tenant)
    → IsValid c
    → (get_by_identifier now i c).0 ≡ some t
    → (t.identifier ≡ i) × ((lookup now t.id c).0 ≡ some t)
unfolding get_by_identifier
get_by_identifier_sound now i c t v h = elim (Option-cases (get i c.id_by_ident)) [
  | inl e ↦ ground (arith, e)
  | inr (k, e) ↦ elim (Option-cases (get k c.by_id)) [
    | inl f ↦ ground (arith, e, f, lookup-fresh now k c)
    | inr (x, f) ↦ ground (arith, e, f, lookup-fresh now k c, v.sound i k e, v.keyed k x f)
  ]
]

-- A stored tenant is found by its identifier up to `ttl` seconds later and no longer.
pub get_by_identifier-set :
    (now later : ℕ) (t : Tenant) (c : TenantCache)
    → IsValid c
    → (get_by_identifier later t.identifier (set now t c)).0
      ≡ (if leb later (now + c.ttl * second) then some t else none)
unfolding get_by_identifier
get_by_identifier-set now later t c v =
    let r = make_room t (record c { id_by_ident = unrename t c }) in
    let named : get t.identifier (set now t c).id_by_ident ≡ some t.id =
      unfold set in ground (arith, get-put t.identifier t.identifier t.id r.id_by_ident) in
    rw (named, get_by_identifier) (ground (arith, lookup-set now later t t.id c v))

-- After an invalidation the tenant is not returned, and every other tenant is as before.
pub lookup-invalidate :
    (now : ℕ) (k j : Text) (c : TenantCache)
    → (lookup now j (invalidate k c).1).0 ≡ ite (text_dec k j) none (lookup now j c).0
unfolding invalidate evict
lookup-invalidate now k j c =
    ground (arith, lookup-fresh now j (evict k c).1, lookup-fresh now j c, get-del j k c.by_id)

rate-le : (h m : ℕ) → (if ltb 0 (h + m) then h * 100 / (h + m) else 0) ≤ 100
rate-le h m = elim (Bool-cases (ltb 0 (h + m))) [
  | inl p ↦
      let pos : 0 < h + m = ground arith in
      let q : h * 100 / (h + m) < 101 = (div-lt_iff_lt-mul pos).1 (omega arith) in
      rw p (omega arith)
  | inr p ↦ rw p (omega arith)
]

-- Each lookup counts once, as a hit when it returns a tenant and else as a miss; the hit rate is a
-- percentage.
pub lookup-counts :
    (now : ℕ) (k : Text) (c : TenantCache)
    → ((lookup now k c).1.hits + (lookup now k c).1.misses ≡ c.hits + c.misses + 1)
      × ((lookup now k c).1.hits ≡ c.hits + (elim (lookup now k c).0 [ none ↦ 0 | some _ ↦ 1 ]))
      × (hit_rate_pct c ≤ 100)
unfolding lookup evict hit_rate_pct
lookup-counts now k c = (ground arith, ground arith, rate-le c.hits c.misses)
