-- ===== src/Cache/TenantCache/Valid.antt =====
-- The invariant of TenantCache, and the methods that keep it.
use fastapi_tenancy.Prelude.{
  ℕ, suc, ◌+◌, ◌*◌, ◌≤◌, ◌≡◌, ◌⊎◌, leb, ◌&&◌, not, refl, ap, Text, Option, none, some, List, [],
  ◌∷◌, true, length, arith, Option-cases, inl, inr, Bool-cases,
}
use fastapi_tenancy.Prelude.Dict.{
  Dict, IsDict, get, put, move_to_end, get-put, get-del, put-IsDict, del-IsDict, length-put,
  length-del, get-move_to_end, move_to_end-IsDict, length-move_to_end,
}
use fastapi_tenancy.Core.Types.{Tenant}
use fastapi_tenancy.Core.Exceptions.{ok}
use fastapi_tenancy.Cache.TenantCache.{
  Entry, TenantCache, init, evict, dropped, evict_first, evict_lru, lookup, expired, unrename, has,
  make_room, stored, set, second, evict_all, purge_expired, expired_keys, clear,
}

abbrev pub cached_ident : Option Entry → Option Text
cached_ident none = none
cached_ident (some e) = some e.tenant.identifier

pub record IsValid (c : TenantCache) : Type 0 where
  pub positive : 1 ≤ c.max_size
  pub bounded : length c.by_id ≤ c.max_size
  pub dict : IsDict c.by_id
  pub keyed : (k : Text) (e : Entry) → get k c.by_id ≡ some e → e.tenant.id ≡ k
  -- the index leads from an identifier only to an entry with that identifier
  pub sound : (i k : Text) → get i c.id_by_ident ≡ some k → cached_ident (get k c.by_id) ≡ some i

pub init-IsValid : (m n : ℕ) {c : TenantCache} → init m n ≡ ok c → IsValid c
unfolding init get
init-IsValid m n h = record {
  positive = ground arith;
  bounded = ground arith;
  dict = ground arith;
  keyed = λ k e p. ground arith;
  sound = λ i k p. ground arith;
}

dropped-IsValid :
    (k : Text) (e : Entry) {c : TenantCache}
    → IsValid c
    → get k c.by_id ≡ some e
    → IsValid (dropped k e c)
dropped-IsValid k e {c} v p = record {
  positive = v.positive;
  bounded = ground (arith, v.bounded, length-del k c.by_id v.dict);
  dict = del-IsDict _ _ v.dict;
  keyed = λ j f q. ground (arith, get-del j k c.by_id, v.keyed j f);
  sound = λ i j q.
      ground (arith, get-del j k c.by_id, get-del i e.tenant.identifier c.id_by_ident, v.sound i j);
}

pub evict-IsValid : (k : Text) {c : TenantCache} → IsValid c → IsValid (evict k c).1
unfolding evict
evict-IsValid k {c} v = elim (Option-cases (get k c.by_id)) [
  | inl e ↦ rw (e, evict) v
  | inr (f, e) ↦ rw (e, evict) (dropped-IsValid k f v e)
]

evict_first-IsValid :
    (d : Dict Entry) {c : TenantCache} → c.by_id ≡ d → IsValid c → IsValid (evict_first d c)
unfolding evict_first get
evict_first-IsValid [] p v = v
evict_first-IsValid ((k, e) ∷ rest) {c} p v =
    let w : IsDict ((k, e) ∷ rest) = rw p at v.dict in
    record {
      positive = v.positive;
      bounded = ground (arith, p, v.bounded);
      dict = w.1;
      keyed = λ j f q. ground (arith, p, w.0, v.keyed j f);
      sound =
          λ i j q. ground (arith, p, w.0, get-del i e.tenant.identifier c.id_by_ident, v.sound i j);
    }

moved-IsValid :
    (k : Text) {c : TenantCache} (n : ℕ)
    → IsValid c
    → IsValid (record c { by_id = move_to_end k c.by_id; hits = n })
moved-IsValid k {c} n v = record {
  positive = v.positive;
  bounded = ground (arith, v.bounded, length-move_to_end k c.by_id v.dict);
  dict = move_to_end-IsDict _ _ v.dict;
  keyed = λ j f q. ground (arith, get-move_to_end j k c.by_id, v.keyed j f);
  sound = λ i j q. ground (arith, get-move_to_end j k c.by_id, v.sound i j);
}

counted-IsValid : {c : TenantCache} (n : ℕ) → IsValid c → IsValid (record c { misses = n })
counted-IsValid n v = record {
  positive = v.positive;
  bounded = v.bounded;
  dict = v.dict;
  keyed = v.keyed;
  sound = v.sound;
}

pub lookup-IsValid : (now : ℕ) (k : Text) {c : TenantCache} → IsValid c → IsValid (lookup now k c).1
unfolding lookup
lookup-IsValid now k {c} v = elim (Option-cases (get k c.by_id)) [
  | inl e ↦ rw (e, lookup) (counted-IsValid (c.misses + 1) v)
  | inr (f, e) ↦ elim (Bool-cases (expired now f)) [
    | inl x ↦ rw (e, x, lookup) (counted-IsValid (c.misses + 1) (evict-IsValid k v))
    | inr x ↦ rw (e, x, lookup) (moved-IsValid k (c.hits + 1) v)
  ]
]

-- Before the new entry is stored no other identifier leads to its id.
abbrev Only : Tenant → Dict Text → Type 0
Only t d = (i : Text) → get i d ≡ some t.id → i ≡ t.identifier

unrename-IsValid :
    (t : Tenant) {c : TenantCache} → IsValid c → IsValid (record c { id_by_ident = unrename t c })
unfolding unrename
unrename-IsValid t {c} v = record {
  positive = v.positive;
  bounded = v.bounded;
  dict = v.dict;
  keyed = v.keyed;
  sound = λ i k q. elim (Option-cases (get t.id c.by_id)) [
    | inl e ↦ ground (arith, e, v.sound i k)
    | inr (f, e) ↦ ground (arith, e, v.sound i k, get-del i f.tenant.identifier c.id_by_ident)
  ];
}

unrename-Only : (t : Tenant) {c : TenantCache} → IsValid c → Only t (unrename t c)
unfolding unrename
unrename-Only t {c} v = λ i q. elim (Option-cases (get t.id c.by_id)) [
  | inl e ↦ ground (arith, e, v.sound i t.id)
  | inr (f, e) ↦ ground (arith, e, v.sound i t.id, get-del i f.tenant.identifier c.id_by_ident)
]

evict_first-Only :
    (t : Tenant) (d : Dict Entry) (c : TenantCache)
    → Only t c.id_by_ident
    → Only t (evict_first d c).id_by_ident
unfolding evict_first
evict_first-Only t [] c o = o
evict_first-Only t ((k, e) ∷ rest) c o =
    λ i q. ground (arith, o i, get-del i e.tenant.identifier c.id_by_ident)

evict_lru-shorter :
    (c : TenantCache) → 1 ≤ length c.by_id → suc (length (evict_lru c).by_id) ≡ length c.by_id
unfolding evict_lru
evict_lru-shorter c h = shorter c.by_id refl
  where
    shorter : (d : Dict Entry) → c.by_id ≡ d → suc (length (evict_first d c).by_id) ≡ length c.by_id
    shorter [] p = absurd (omega (arith, h, ap length p))
    shorter ((k, e) ∷ rest) p = omega (arith, ap length p)

-- What make_room leaves: a valid cache with the same bounds, in which no other identifier leads to
-- the tenant's id, with room for the tenant or with its entry.
record HasRoom (t : Tenant) (c c' : TenantCache) : Type 0 where
  valid : IsValid c'
  max_size : c'.max_size ≡ c.max_size
  only : Only t c'.id_by_ident
  room : (suc (length c'.by_id) ≤ c'.max_size) ⊎ (has t.id c'.by_id ≡ true)

pub max_size-evict_lru : (c : TenantCache) → (evict_lru c).max_size ≡ c.max_size
unfolding evict_lru
max_size-evict_lru c = kept c.by_id
  where
    kept : (d : Dict Entry) → (evict_first d c).max_size ≡ c.max_size
    kept [] = refl
    kept ((k, e) ∷ rest) = refl

make_room-HasRoom :
    (t : Tenant) {c : TenantCache} → IsValid c → Only t c.id_by_ident → HasRoom t c (make_room t c)
unfolding make_room
make_room-HasRoom t {c} v o =
    elim (Bool-cases (leb c.max_size (length c.by_id) && not (has t.id c.by_id))) [
      | inl full ↦
          rw (full, make_room)
            (record {
              valid = unfold evict_lru in evict_first-IsValid c.by_id refl v;
              max_size = max_size-evict_lru c;
              only = unfold evict_lru in evict_first-Only t c.by_id c o;
              room = inl (
                  ground (arith, v.bounded, v.positive, evict_lru-shorter c, max_size-evict_lru c));
            })
      | inr free ↦
          rw (free, make_room)
            (record { valid = v; max_size = refl; only = o; room = ground (arith, free) })
    ]

stored-IsValid :
    (now : ℕ) (t : Tenant) {c c' : TenantCache} → HasRoom t c c' → IsValid (stored now t c')
stored-IsValid now t {c} {c'} h =
    let e : Entry = record { tenant = t; expires_at = now + c'.ttl * second } in
    let d : Dict Entry = put t.id e c'.by_id in
    let v = h.valid in
    record {
      positive = v.positive;
      bounded = ground (
        arith,
        h.room,
        v.bounded,
        length-put t.id e c'.by_id,
        length-move_to_end t.id d (put-IsDict t.id e c'.by_id v.dict),
      );
      dict = move_to_end-IsDict _ _ (put-IsDict _ _ _ v.dict);
      keyed =
          λ j f q. ground (arith, get-move_to_end j t.id d, get-put j t.id e c'.by_id, v.keyed j f);
      sound = λ i j q. ground (
        arith,
        get-move_to_end j t.id d,
        get-put j t.id e c'.by_id,
        get-put i t.identifier t.id c'.id_by_ident,
        h.only i,
        v.sound i j,
      );
    }

pub set-IsValid : (now : ℕ) (t : Tenant) {c : TenantCache} → IsValid c → IsValid (set now t c)
unfolding set
set-IsValid now t {c} v =
    stored-IsValid now t (make_room-HasRoom t (unrename-IsValid t v) (unrename-Only t v))

evict_all-IsValid : (ks : List Text) {c : TenantCache} → IsValid c → IsValid (evict_all ks c)
unfolding evict_all
evict_all-IsValid [] v = v
evict_all-IsValid (k ∷ ks) v = evict_all-IsValid ks (evict-IsValid k v)

pub purge-IsValid : (now : ℕ) {c : TenantCache} → IsValid c → IsValid (purge_expired now c).1
unfolding purge_expired
purge-IsValid now {c} v = evict_all-IsValid (expired_keys now c.by_id) v

pub clear-IsValid : {c : TenantCache} → IsValid c → IsValid (clear c).1
unfolding clear get
clear-IsValid v = record {
  positive = v.positive;
  bounded = omega arith;
  dict = tt;
  keyed = λ k e p. cc;
  sound = λ i k p. cc;
}
