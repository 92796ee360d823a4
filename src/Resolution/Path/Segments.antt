-- ===== src/Resolution/Path/Segments.antt =====
-- The path resolver against a description of the paths that name a tenant.
use fastapi_tenancy.Prelude.{
  ℕ, ◌≡◌, refl, ap, ap₂, ◌∙◌, Text, starts_with, some, [], ◌∷◌, ◌++◌, Bool, true, false, ◌==◌,
  length, drop, drop-append, arith, Bool-cases, inl, inr,
}
use fastapi_tenancy.Core.Types.{Tenant}
use fastapi_tenancy.Core.Exceptions.{ok}
use fastapi_tenancy.Utils.Chars.{is_empty, has_char, is_slug_char}
use fastapi_tenancy.Utils.Validation.{validate_tenant_identifier}
use fastapi_tenancy.Utils.Validation.Plain.{valid-lacks}
use fastapi_tenancy.Resolution.Request.{Request, Lookup, before}
use fastapi_tenancy.Resolution.Path.{with_slash, or_root, resolve_remainder, resolve}

-- What follows a segment: nothing, or a slash.
abbrev pub ends_segment : ℕ → Text → Bool
ends_segment x [] = true
ends_segment x (c ∷ s) = c == x

before-append :
    (x : ℕ) (i rest : Text)
    → has_char x i ≡ false
    → ends_segment x rest ≡ true
    → before x (i ++ rest) ≡ i
unfolding before has_char
before-append x [] [] h k = refl
before-append x [] (c ∷ s) h k = ground arith
before-append x (c ∷ i) rest h k = ground (arith, before-append x i rest)

pub before-split : (x : ℕ) (s : Text) → s ≡ before x s ++ drop (length (before x s)) s
unfolding before
before-split x [] = refl
before-split x (c ∷ s) = elim (Bool-cases (c == x)) [
  | inl e ↦ rw e
  | inr e ↦ rw e (ap (◌∷◌ c) (before-split x s))
]

pub before-ends : (x : ℕ) (s : Text) → ends_segment x (drop (length (before x s)) s) ≡ true
unfolding before
before-ends x [] = refl
before-ends x (c ∷ s) = elim (Bool-cases (c == x)) [
  | inl e ↦ rw (e, e)
  | inr e ↦ rw e (before-ends x s)
]

starts_with-append : (p s : Text) → starts_with p (p ++ s) ≡ true
unfolding starts_with
starts_with-append [] s = refl
starts_with-append (c ∷ p) s = ground (arith, starts_with-append p s)

starts_with-split : (p s : Text) → starts_with p s ≡ true → s ≡ p ++ drop (length p) s
unfolding starts_with
starts_with-split [] s h = refl
starts_with-split (c ∷ p) [] h = cc
starts_with-split (c ∷ p) (d ∷ s) h = ap₂ ◌∷◌ (ground arith) (starts_with-split p s (ground arith))

-- The path is the prefix, the segment `i`, and a rest that is empty or begins with a slash.
pub record Names (prefix i rest : Text) (r : Request) : Type 0 where
  pub split : r.path ≡ with_slash prefix ++ (i ++ rest)
  pub segment : ends_segment b'/' rest ≡ true
  pub valid : validate_tenant_identifier i ≡ true

abbrev pub with_rest : Text → Request → Request
with_rest rest r = record r { tenant_path_remainder = some (or_root rest) }

slug_lacks_slash : (i : Text) → validate_tenant_identifier i ≡ true → has_char b'/' i ≡ false
unfolding is_slug_char
slug_lacks_slash i h = valid-lacks b'/' i refl h

valid-nonempty : (i : Text) → validate_tenant_identifier i ≡ true → is_empty i ≡ false
unfolding validate_tenant_identifier
valid-nonempty [] h = cc
valid-nonempty (c ∷ i) h = refl

-- On a path that names a tenant the resolver returns what the store says of the tenant's segment,
-- and leaves the rest of the path, or a slash if there is none, in the request's state.
pub resolve-Names :
    (get_by_identifier : Lookup) (prefix i rest : Text) (r : Request)
    → Names prefix i rest r
    → resolve get_by_identifier prefix r ≡ (get_by_identifier i, with_rest rest r)
unfolding resolve
resolve-Names get_by_identifier prefix i rest r n =
    rw
      (
        n.split,
        starts_with-append (with_slash prefix) (i ++ rest),
        drop-append (with_slash prefix) (i ++ rest),
      )
      (unfold resolve_remainder in
        rw (
          before-append b'/' i rest (slug_lacks_slash i n.valid) n.segment,
          valid-nonempty i n.valid,
          n.valid,
          drop-append i rest,
        ))

remainder-ok :
    (get_by_identifier : Lookup) (prefix s : Text) (r r' : Request) (t : Tenant)
    → resolve_remainder get_by_identifier prefix s r ≡ (ok t, r')
    → (validate_tenant_identifier (before b'/' s) ≡ true)
      × (get_by_identifier (before b'/' s) ≡ ok t)
      × (r' ≡ with_rest (drop (length (before b'/' s)) s) r)
unfolding resolve_remainder
remainder-ok get_by_identifier prefix s r r' t h = (ground arith, ground arith, ground arith)

prefix-ok :
    (get_by_identifier : Lookup) (prefix : Text) (r r' : Request) (t : Tenant)
    → resolve get_by_identifier prefix r ≡ (ok t, r')
    → (starts_with (with_slash prefix) r.path ≡ true)
      × (resolve_remainder get_by_identifier prefix (drop (length (with_slash prefix)) r.path) r
          ≡ (ok t, r'))
unfolding resolve
prefix-ok get_by_identifier prefix r r' t h = (ground arith, ground arith)

-- Where the resolver returns a tenant, the path names a segment under which the store finds it.
pub resolve-ok :
    (get_by_identifier : Lookup) (prefix : Text) (r r' : Request) (t : Tenant)
    → resolve get_by_identifier prefix r ≡ (ok t, r')
    → (i : Text) × (rest : Text) × Names prefix i rest r
      × (get_by_identifier i ≡ ok t)
      × (r' ≡ with_rest rest r)
resolve-ok get_by_identifier prefix r r' t h =
    let p = with_slash prefix in
    let s = drop (length p) r.path in
    let i = before b'/' s in
    let (starts, found) = prefix-ok get_by_identifier prefix r r' t h in
    let (valid, stored, kept) = remainder-ok get_by_identifier prefix s r r' t found in
    (
      i,
      drop (length i) s,
      record {
        split = starts_with-split p r.path starts ∙ ap (λ u. p ++ u) (before-split b'/' s);
        segment = before-ends b'/' s;
        valid = valid;
      },
      stored,
      kept,
    )
