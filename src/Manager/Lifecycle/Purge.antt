-- ===== src/Manager/Lifecycle/Purge.antt =====
-- manager.py, cache/tenant_cache.py: how long entries outlive their time under the purge loop.
use fastapi_tenancy.Prelude.{
  ℕ, ◌≡◌, ◌≤◌, ◌+◌, ◌*◌, refl, Text, List, [], ◌∷◌, ◌++◌, some, arith, Option-cases, inl, inr,
  Bool-cases, leb, length, not, ◌&&◌,
}
use fastapi_tenancy.Prelude.Dict.{Dict, IsDict, get, put, del, move_to_end}
use fastapi_tenancy.Core.Types.{Tenant}
use fastapi_tenancy.Cache.TenantCache.{
  Entry, TenantCache, second, evict, evict_lru, evict_first, unrename, has, lookup,
  get_by_identifier, set, make_room, invalidate, invalidate_by_identifier, clear, expired,
  purge_expired, evict_all, expired_keys,
}
use fastapi_tenancy.Cache.TenantCache.Valid.{IsValid, purge-IsValid}
use fastapi_tenancy.Cache.TenantCache.Purge.{purge_lem}
use fastapi_tenancy.Cache.TenantCache.Run.{
  run-keeps, Command, gets, gets_by_identifier, sets, invalidates, invalidates_by_identifier,
  clears, purges, apply, run,
}
use fastapi_tenancy.Manager.Lifecycle.{purge_interval, purge_loop}

-- No entry ends before a time.
abbrev pub Late : ℕ → Dict Entry → Type 0
Late from [] = Unit
Late from ((k, e) ∷ d) = (from ≤ e.expires_at) × Late from d

del-Late : (from : ℕ) (k : Text) (d : Dict Entry) → Late from d → Late from (del k d)
unfolding del
del-Late from k [] h = tt
del-Late from k ((j, e) ∷ d) h = ground (arith, del-Late from k d h.1, h.0)

put-Late :
    (from : ℕ) (k : Text) (e : Entry) (d : Dict Entry)
    → from ≤ e.expires_at
    → Late from d
    → Late from (put k e d)
unfolding put
put-Late from k e [] l h = (l, tt)
put-Late from k e ((j, f) ∷ d) l h = ground (arith, put-Late from k e d l h.1, h.0, h.1)

append-Late :
    (from : ℕ) (d : Dict Entry) (k : Text) (e : Entry)
    → from ≤ e.expires_at
    → Late from d
    → Late from (d ++ (k, e) ∷ [])
append-Late from [] k e l h = (l, tt)
append-Late from ((j, f) ∷ d) k e l h = (h.0, append-Late from d k e l h.1)

get-Late :
    (from : ℕ) (k : Text) (e : Entry) (d : Dict Entry)
    → get k d ≡ some e
    → Late from d
    → from ≤ e.expires_at
unfolding get
get-Late from k e [] g h = cc
get-Late from k e ((j, f) ∷ d) g h = ground (arith, get-Late from k e d, g, h.0, h.1)

moved-Late : (from : ℕ) (k : Text) (d : Dict Entry) → Late from d → Late from (move_to_end k d)
unfolding move_to_end
moved-Late from k d h = elim (Option-cases (get k d)) [
  | inl e ↦ rw (e, move_to_end) h
  | inr (f, e) ↦
      rw (e, move_to_end)
        (append-Late from (del k d) k f (get-Late from k f d e h) (del-Late from k d h))
]

evict-Late :
    (from : ℕ) (k : Text) (c : TenantCache) → Late from c.by_id → Late from (evict k c).1.by_id
unfolding evict
evict-Late from k c h = elim (Option-cases (get k c.by_id)) [
  | inl e ↦ rw (e, evict) h
  | inr (f, e) ↦ rw (e, evict) (del-Late from k c.by_id h)
]

evict_all-Late :
    (from : ℕ) (ks : List Text) (c : TenantCache)
    → Late from c.by_id
    → Late from (evict_all ks c).by_id
unfolding evict_all
evict_all-Late from [] c h = h
evict_all-Late from (k ∷ ks) c h = evict_all-Late from ks (evict k c).1 (evict-Late from k c h)

evict_first-Late :
    (from : ℕ) (d : Dict Entry) (c : TenantCache)
    → Late from d
    → c.by_id ≡ d
    → Late from (evict_first d c).by_id
unfolding evict_first
evict_first-Late from [] c h e = rw e tt
evict_first-Late from ((k, f) ∷ d) c h e = h.1

lookup-Late :
    (from now : ℕ) (k : Text) (c : TenantCache)
    → Late from c.by_id
    → Late from (lookup now k c).1.by_id
unfolding lookup
lookup-Late from now k c h = elim (Option-cases (get k c.by_id)) [
  | inl e ↦ rw (e, lookup) h
  | inr (f, e) ↦ elim (Bool-cases (expired now f)) [
    | inl x ↦ rw (e, x, lookup) (evict-Late from k c h)
    | inr x ↦ rw (e, x, lookup) (moved-Late from k c.by_id h)
  ]
]

set-Late :
    (from now : ℕ) (t : Tenant) (c : TenantCache)
    → from ≤ now
    → Late from c.by_id
    → Late from (set now t c).by_id
unfolding set make_room evict_lru
set-Late from now t c l h =
    let c1 : TenantCache = record c { id_by_ident = unrename t c } in
    moved-Late from t.id _ (
      put-Late from t.id (record { tenant = t; expires_at = now + (make_room t c1).ttl * second }) _
        (omega arith) (room-Late from t c1 h))
  where
    room-Late :
        (from : ℕ) (t : Tenant) (c : TenantCache)
        → Late from c.by_id
        → Late from (make_room t c).by_id
    room-Late from t c h =
        elim (Bool-cases (leb c.max_size (length c.by_id) && not (has t.id c.by_id))) [
          | inl e ↦ rw (e, make_room) (evict_first-Late from c.by_id c h refl)
          | inr e ↦ rw (e, make_room) h
        ]

-- A call that sets an entry does so at a time that is not before the one given.
abbrev pub SetsFrom : ℕ → List Command → Type 0
SetsFrom from [] = Unit
SetsFrom from (sets now t ∷ rest) = (from ≤ now) × SetsFrom from rest
SetsFrom from (cmd ∷ rest) = SetsFrom from rest

apply-Late :
    (from : ℕ) (cmd : Command) (c : TenantCache)
    → SetsFrom from (cmd ∷ [])
    → Late from c.by_id
    → Late from (apply cmd c).by_id
unfolding apply invalidate get_by_identifier invalidate_by_identifier clear purge_expired
apply-Late from (gets now k) c l h = lookup-Late from now k c h
apply-Late from (gets_by_identifier now i) c l h = elim (Option-cases (get i c.id_by_ident)) [
  | inl e ↦ rw (e, apply, get_by_identifier) h
  | inr (k, e) ↦ rw (e, apply, get_by_identifier) (lookup-Late from now k c h)
]
apply-Late from (sets now t) c l h = set-Late from now t c l.0 h
apply-Late from (invalidates k) c l h = evict-Late from k c h
apply-Late from (invalidates_by_identifier i) c l h = elim (Option-cases (get i c.id_by_ident)) [
  | inl e ↦ rw (e, apply, invalidate_by_identifier) h
  | inr (k, e) ↦ rw (e, apply, invalidate_by_identifier) (evict-Late from k c h)
]
apply-Late from clears c l h = tt
apply-Late from (purges now) c l h = evict_all-Late from (expired_keys now c.by_id) c h

run-Late :
    (from : ℕ) (cmds : List Command) (c : TenantCache)
    → SetsFrom from cmds
    → Late from c.by_id
    → Late from (run cmds c).by_id
unfolding run
run-Late from [] c l h = h
run-Late from (cmd ∷ rest) c l h =
    run-Late from rest (apply cmd c) (later cmd rest l) (apply-Late from cmd c (first cmd rest l) h)
  where
    first :
        (cmd : Command) (rest : List Command)
        → SetsFrom from (cmd ∷ rest)
        → SetsFrom from (cmd ∷ [])
    first (sets now t) rest l = (l.0, tt)
    first (gets now k) rest l = tt
    first (gets_by_identifier now i) rest l = tt
    first (invalidates k) rest l = tt
    first (invalidates_by_identifier i) rest l = tt
    first clears rest l = tt
    first (purges now) rest l = tt

    later : (cmd : Command) (rest : List Command) → SetsFrom from (cmd ∷ rest) → SetsFrom from rest
    later (sets now t) rest l = l.1
    later (gets now k) rest l = l
    later (gets_by_identifier now i) rest l = l
    later (invalidates k) rest l = l
    later (invalidates_by_identifier i) rest l = l
    later clears rest l = l
    later (purges now) rest l = l

Late-of :
    (from : ℕ) (d : Dict Entry)
    → IsDict d
    → ((k : Text) (e : Entry) → get k d ≡ some e → from ≤ e.expires_at)
    → Late from d
unfolding get
Late-of from [] v h = tt
Late-of from ((k, e) ∷ d) v h =
    (h k e (ground arith), Late-of from d v.1 (λ j f g. h j f (ground (arith, g, v.0))))

purge-Late : (now : ℕ) (c : TenantCache) → IsValid c → Late now (purge_expired now c).1.by_id
purge-Late now c v =
    Late-of now _ (purge-IsValid now v).dict
      (λ k e g. ground (arith, g, (purge_lem now now k c v.dict (omega arith)).0))

-- When the last of the rounds ends.
abbrev pub end_of : ℕ → ℕ → List (List Command) → ℕ
end_of interval from [] = from
end_of interval from (cmds ∷ rounds) = end_of interval (from + interval) rounds

purge_loop-Late :
    (interval from : ℕ) (rounds : List (List Command)) (c : TenantCache)
    → IsValid c
    → Late from c.by_id
    → Late (end_of interval from rounds) (purge_loop interval from rounds c).by_id
unfolding purge_loop
purge_loop-Late interval from [] c v l = l
purge_loop-Late interval from (cmds ∷ rounds) c v l =
    let v' = (run-keeps c.max_size cmds v refl).0 in
    purge_loop-Late interval (from + interval) rounds
      (purge_expired (from + interval) (run cmds c)).1 (purge-IsValid (from + interval) v')
      (purge-Late (from + interval) (run cmds c) v')

-- A time to live of two seconds or more: whatever is called on the cache while the purge loop runs,
-- from a time at which no entry has expired, an entry that is still there at some moment of
-- a round has expired at most half its time to live before.
pub purge_loop-bounds :
    (ttl from now : ℕ) (rounds : List (List Command)) (last : List Command) (c : TenantCache)
    (k : Text) (e : Entry)
    → 2 ≤ ttl
    → IsValid c
    → Late from c.by_id
    → SetsFrom (end_of (purge_interval ttl) from rounds) last
    → now ≤ end_of (purge_interval ttl) from rounds + purge_interval ttl
    → get k (run last (purge_loop (purge_interval ttl) from rounds c)).by_id ≡ some e
    → 2 * now ≤ 2 * e.expires_at + ttl * second
unfolding purge_interval
purge_loop-bounds ttl from now rounds last c k e two v l since soon g =
    let i = purge_interval ttl in
    let late =
      run-Late (end_of i from rounds) last (purge_loop i from rounds c) since
        (purge_loop-Late i from rounds c v l) in
    let there : end_of i from rounds ≤ e.expires_at =
      get-Late (end_of i from rounds) k e _ g late in
    let half : 2 * i ≤ ttl * second = ground arith in omega (arith, there, half, soon)
