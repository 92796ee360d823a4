-- ===== src/Resolution/Subdomain/Hosts.antt =====
-- The subdomain resolver against a description of the hosts that name a tenant.
use fastapi_tenancy.Prelude.{
  ℕ, ◌≡◌, ◌↔◌, refl, ap, Text, codes, [], ◌∷◌, ◌++◌, true, false, ◌||◌, ◌==◌, arith, Bool-cases,
  inl, inr,
}
use fastapi_tenancy.Core.Exceptions.{ok}
use fastapi_tenancy.Utils.Chars.{is_empty, has_char, is_slug_char}
use fastapi_tenancy.Utils.Validation.{validate_tenant_identifier}
use fastapi_tenancy.Utils.Validation.Plain.{valid-lacks}
use fastapi_tenancy.Resolution.Request.{Request, Lookup, before, ends_with}
use fastapi_tenancy.Resolution.Subdomain.{hostname_of, extract_identifier, host_of, resolve}

-- The host is the slug, a dot and a rest, and ends with the configured suffix, if there is one.
pub record Names (lower : Text → Text) (suffix host i rest : Text) : Type 0 where
  pub split : hostname_of lower host ≡ i ++ b'.' ∷ rest
  pub suffixed : (is_empty suffix || ends_with suffix (hostname_of lower host)) ≡ true
  pub valid : validate_tenant_identifier i ≡ true

has_char-append : (x : ℕ) (i rest : Text) → has_char x (i ++ x ∷ rest) ≡ true
unfolding has_char
has_char-append x [] rest = ground arith
has_char-append x (c ∷ i) rest = ground (arith, has_char-append x i rest)

before-append : (x : ℕ) (i rest : Text) → has_char x i ≡ false → before x (i ++ x ∷ rest) ≡ i
unfolding before has_char
before-append x [] rest h = ground arith
before-append x (c ∷ i) rest h = ground (arith, before-append x i rest)

before-split :
    (x : ℕ) (s : Text) → has_char x s ≡ true → (rest : Text) × (s ≡ before x s ++ x ∷ rest)
unfolding before has_char
before-split x [] h = cc
before-split x (c ∷ s) h = elim (Bool-cases (c == x)) [
  | inl e ↦ (s, ground (arith, e))
  | inr e ↦ let (rest, p) = before-split x s (ground arith) in (rest, rw e (ap (◌∷◌ c) p))
]

slug_lacks_dot : (i : Text) → validate_tenant_identifier i ≡ true → has_char b'.' i ≡ false
unfolding is_slug_char
slug_lacks_dot i h = valid-lacks b'.' i refl h

extracted :
    (lower : Text → Text) (suffix host i : Text)
    → extract_identifier lower suffix host ≡ ok i
    → (has_char b'.' (hostname_of lower host) ≡ true)
      × ((is_empty suffix || ends_with suffix (hostname_of lower host)) ≡ true)
      × (validate_tenant_identifier i ≡ true)
      × (before b'.' (hostname_of lower host) ≡ i)
unfolding extract_identifier
extracted lower suffix host i h = (ground arith, ground arith, ground arith, ground arith)

-- An identifier is extracted exactly from the hosts that name it.
pub extract_identifier_iff :
    (lower : Text → Text) (suffix host i : Text)
    → (extract_identifier lower suffix host ≡ ok i)
      ↔ ((rest : Text) × Names lower suffix host i rest)
unfolding extract_identifier
extract_identifier_iff lower suffix host i = (
  λ h.
      let (dot, suffixed, valid, e) = extracted lower suffix host i h in
      let (rest, p) = before-split b'.' (hostname_of lower host) dot in
      (rest, record { split = rw e at p; suffixed = suffixed; valid = valid }),
  λ n.
      let (rest, m) = n in
      ground (
        arith,
        m.suffixed,
        m.valid,
        m.split,
        before-append b'.' i rest (slug_lacks_dot i m.valid),
        has_char-append b'.' i rest,
      ),
)

-- Unless X-Forwarded-Host is trusted, the result depends on the Host header alone.
pub resolve-untrusted :
    (lower : Text → Text) (get_by_identifier : Lookup) (suffix : Text) (r r' : Request)
    → r.headers (codes "host") ≡ r'.headers (codes "host")
    → resolve lower get_by_identifier suffix false r
      ≡ resolve lower get_by_identifier suffix false r'
unfolding resolve host_of
resolve-untrusted lower get_by_identifier suffix r r' e = rw e
