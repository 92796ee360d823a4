-- ===== src/Cache/TenantCache/Run.antt =====
-- Every sequence of calls on a TenantCache.
use fastapi_tenancy.Prelude.{
  ℕ, ◌≡◌, ◌≤◌, refl, ◌∙◌, Text, List, [], ◌∷◌, length, arith, Option-cases, inl, inr,
}
use fastapi_tenancy.Prelude.Dict.{get}
use fastapi_tenancy.Core.Types.{Tenant}
use fastapi_tenancy.Core.Exceptions.{ok}
use fastapi_tenancy.Cache.TenantCache.{
  TenantCache, init, evict, lookup, get_by_identifier, set, make_room, invalidate,
  invalidate_by_identifier, clear, evict_all, expired_keys, purge_expired, unrename,
}
use fastapi_tenancy.Cache.TenantCache.Valid.{
  IsValid, init-IsValid, evict-IsValid, lookup-IsValid, set-IsValid, purge-IsValid, clear-IsValid,
  max_size-evict_lru,
}

pub data Command : Type 0 where
  gets : ℕ → Text → Command
  gets_by_identifier : ℕ → Text → Command
  sets : ℕ → Tenant → Command
  invalidates : Text → Command
  invalidates_by_identifier : Text → Command
  clears : Command
  purges : ℕ → Command

unfoldable pub apply : Command → TenantCache → TenantCache
apply (gets now k) c = (lookup now k c).1
apply (gets_by_identifier now i) c = (get_by_identifier now i c).1
apply (sets now t) c = set now t c
apply (invalidates k) c = (invalidate k c).1
apply (invalidates_by_identifier i) c = (invalidate_by_identifier i c).1
apply clears c = (clear c).1
apply (purges now) c = (purge_expired now c).1

unfoldable pub run : List Command → TenantCache → TenantCache
unfolding apply
run [] c = c
run (cmd ∷ rest) c = run rest (apply cmd c)

pub get_by_identifier-IsValid :
    (now : ℕ) (i : Text) {c : TenantCache} → IsValid c → IsValid (get_by_identifier now i c).1
unfolding get_by_identifier
get_by_identifier-IsValid now i {c} v = elim (Option-cases (get i c.id_by_ident)) [
  | inl e ↦ rw (e, get_by_identifier) v
  | inr (k, e) ↦ rw (e, get_by_identifier) (lookup-IsValid now k v)
]

pub invalidate_by_identifier-IsValid :
    (i : Text) {c : TenantCache} → IsValid c → IsValid (invalidate_by_identifier i c).1
unfolding invalidate_by_identifier
invalidate_by_identifier-IsValid i {c} v = elim (Option-cases (get i c.id_by_ident)) [
  | inl e ↦ rw (e, invalidate_by_identifier) v
  | inr (k, e) ↦ rw (e, invalidate_by_identifier) (evict-IsValid k v)
]

apply-IsValid : (cmd : Command) {c : TenantCache} → IsValid c → IsValid (apply cmd c)
unfolding apply invalidate
apply-IsValid (gets now k) v = lookup-IsValid now k v
apply-IsValid (gets_by_identifier now i) v = get_by_identifier-IsValid now i v
apply-IsValid (sets now t) v = set-IsValid now t v
apply-IsValid (invalidates k) v = evict-IsValid k v
apply-IsValid (invalidates_by_identifier i) v = invalidate_by_identifier-IsValid i v
apply-IsValid clears v = clear-IsValid v
apply-IsValid (purges now) v = purge-IsValid now v

max_size-evict : (k : Text) (c : TenantCache) → (evict k c).1.max_size ≡ c.max_size
unfolding evict
max_size-evict k c = ground arith

max_size-lookup : (now : ℕ) (k : Text) (c : TenantCache) → (lookup now k c).1.max_size ≡ c.max_size
unfolding lookup
max_size-lookup now k c = ground (arith, max_size-evict k c)

max_size-evict_all : (ks : List Text) (c : TenantCache) → (evict_all ks c).max_size ≡ c.max_size
unfolding evict_all
max_size-evict_all [] c = refl
max_size-evict_all (k ∷ ks) c = max_size-evict_all ks (evict k c).1 ∙ max_size-evict k c

max_size-set : (now : ℕ) (t : Tenant) (c : TenantCache) → (set now t c).max_size ≡ c.max_size
unfolding set make_room
max_size-set now t c = ground (arith, max_size-evict_lru (record c { id_by_ident = unrename t c }))

max_size-apply : (cmd : Command) (c : TenantCache) → (apply cmd c).max_size ≡ c.max_size
unfolding apply invalidate get_by_identifier invalidate_by_identifier clear purge_expired
max_size-apply (gets now k) c = max_size-lookup now k c
max_size-apply (gets_by_identifier now i) c = elim (Option-cases (get i c.id_by_ident)) [
  | inl e ↦ rw (e, apply, get_by_identifier)
  | inr (k, e) ↦ rw (e, apply, get_by_identifier) (max_size-lookup now k c)
]
max_size-apply (sets now t) c = max_size-set now t c
max_size-apply (invalidates k) c = max_size-evict k c
max_size-apply (invalidates_by_identifier i) c = elim (Option-cases (get i c.id_by_ident)) [
  | inl e ↦ rw (e, apply, invalidate_by_identifier)
  | inr (k, e) ↦ rw (e, apply, invalidate_by_identifier) (max_size-evict k c)
]
max_size-apply clears c = refl
max_size-apply (purges now) c = max_size-evict_all (expired_keys now c.by_id) c

pub run-keeps :
    (m : ℕ) (cmds : List Command) {c : TenantCache}
    → IsValid c
    → c.max_size ≡ m
    → IsValid (run cmds c) × ((run cmds c).max_size ≡ m)
unfolding run
run-keeps m [] v e = (v, e)
run-keeps m (cmd ∷ rest) {c} v e = run-keeps m rest (apply-IsValid cmd v) (max_size-apply cmd c ∙ e)

-- From construction on, whatever the calls, the cache has at most `max_size` entries, each id once,
-- each entry under its tenant's id, and an index that leads only to entries with the identifier.
pub run-IsValid :
    (max_size ttl : ℕ) (cmds : List Command) {c : TenantCache}
    → init max_size ttl ≡ ok c
    → IsValid (run cmds c) × (length (run cmds c).by_id ≤ max_size)
run-IsValid m n cmds {c} h =
    let e : c.max_size ≡ m = unfold init in ground arith in
    let r = run-keeps m cmds (init-IsValid m n h) e in (r.0, omega (arith, r.0.bounded, r.1))
