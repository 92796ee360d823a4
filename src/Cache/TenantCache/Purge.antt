-- ===== src/Cache/TenantCache/Purge.antt =====
-- purge_expired of TenantCache.
use fastapi_tenancy.Prelude.{
  ℕ, suc, ◌+◌, ◌≤◌, ◌≡◌, refl, Text, text_dec, contains, none, some, List, [], ◌∷◌, true, false,
  length, ite, if_pos, if_neg, arith, Option-cases, inl, inr, Bool-cases, if◌then◌else◌,
}
use fastapi_tenancy.Prelude.Dict.{
  Dict, IsDict, get, del, get-del, length-del, del-absent, del-IsDict,
}
use fastapi_tenancy.Cache.TenantCache.{
  Entry, TenantCache, evict, lookup, expired, has, evict_all, purge_expired, expired_keys,
}
use fastapi_tenancy.Cache.TenantCache.Reads.{lookup-fresh}

get-evict :
    (j k : Text) (c : TenantCache)
    → get j (evict k c).1.by_id ≡ ite (text_dec k j) none (get j c.by_id)
unfolding evict
get-evict j k c = ground (arith, get-del j k c.by_id)

get-evict_all :
    (j : Text) (ks : List Text) (c : TenantCache)
    → get j (evict_all ks c).by_id ≡ (if contains ks j then none else get j c.by_id)
unfolding evict_all contains
get-evict_all j [] c = refl
get-evict_all j (k ∷ ks) c = ground (arith, get-evict_all j ks (evict k c).1, get-evict j k c)

contains-expired :
    (now : ℕ) (j : Text) (d : Dict Entry)
    → IsDict d
    → contains (expired_keys now d) j ≡ elim (get j d) [ none ↦ false | some e ↦ expired now e ]
unfolding contains expired_keys get
contains-expired now j [] h = refl
contains-expired now j ((k, e) ∷ d) h = ground (arith, h.0, contains-expired now j d h.1)

-- Every key is there when its turn comes.
abbrev AllIn : List Text → Dict Entry → Type 0
AllIn [] d = Unit
AllIn (k ∷ ks) d = (has k d ≡ true) × AllIn ks (del k d)

AllIn-cons :
    (ks : List Text) (k : Text) (e : Entry) (d : Dict Entry)
    → get k d ≡ none
    → AllIn ks d
    → AllIn ks ((k, e) ∷ d)
unfolding get del
AllIn-cons [] k e d p h = tt
AllIn-cons (j ∷ ks) k e d p h = elim (text_dec k j) [
  | yes q ↦ absurd (ground (arith, p, h.0))
  | no q ↦
      rw (if_neg _ q)
        (ground (arith, h.0), AllIn-cons ks k e (del j d) (ground (arith, get-del k j d)) h.1)
]

AllIn-expired : (now : ℕ) (d : Dict Entry) → IsDict d → AllIn (expired_keys now d) d
unfolding expired_keys get del
AllIn-expired now [] h = tt
AllIn-expired now ((k, e) ∷ d) h = elim (Bool-cases (expired now e)) [
  | inl x ↦
      rw (x, if_pos (text_dec k k) refl, del-absent k d h.0) (ground arith, AllIn-expired now d h.1)
  | inr x ↦ rw x (AllIn-cons (expired_keys now d) k e d h.0 (AllIn-expired now d h.1))
]

evict-by_id : (k : Text) (c : TenantCache) → (evict k c).1.by_id ≡ del k c.by_id
unfolding evict
evict-by_id k c = ground (arith, del-absent k c.by_id)

evict-shorter :
    (k : Text) (c : TenantCache) (e : Entry)
    → get k c.by_id ≡ some e
    → IsDict c.by_id
    → suc (length (evict k c).1.by_id) ≡ length c.by_id
unfolding evict
evict-shorter k c e p d = ground (arith, length-del k c.by_id d)

length-evict_all :
    (ks : List Text) (c : TenantCache)
    → IsDict c.by_id
    → AllIn ks c.by_id
    → length ks + length (evict_all ks c).by_id ≡ length c.by_id
unfolding evict_all
length-evict_all [] c d h = omega arith
length-evict_all (k ∷ ks) c d h = elim (Option-cases (get k c.by_id)) [
  | inl e ↦ absurd (ground (arith, e, h.0))
  | inr (f, e) ↦ omega (
    arith,
    length-evict_all ks (evict k c).1 (rw (evict-by_id k c) (del-IsDict k c.by_id d))
        (rw (evict-by_id k c) h.1),
    evict-shorter k c f e d,
  )
]

-- A purge removes the expired entries and no others, says how many they are, and changes nothing
-- that a lookup returns from then on.
pub purge_lem :
    (now later : ℕ) (j : Text) (c : TenantCache)
    → IsDict c.by_id
    → now ≤ later
    → (get j (purge_expired now c).1.by_id
        ≡ elim (get j c.by_id) [ none ↦ none | some e ↦ if expired now e then none else some e ])
      × ((purge_expired now c).0 + length (purge_expired now c).1.by_id ≡ length c.by_id)
      × ((lookup later j (purge_expired now c).1).0 ≡ (lookup later j c).0)
unfolding purge_expired
purge_lem now later j c d h =
    let ks = expired_keys now c.by_id in
    let gone = get-evict_all j ks c in
    let old = contains-expired now j c.by_id d in
    (
      ground (arith, gone, old),
      length-evict_all ks c d (AllIn-expired now c.by_id d),
      ground (arith, gone, old, lookup-fresh later j (evict_all ks c), lookup-fresh later j c),
    )
