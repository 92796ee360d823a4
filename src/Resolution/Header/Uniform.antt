-- ===== src/Resolution/Header/Uniform.antt =====
-- resolution/header.py: the results of the resolver and its failures.
use fastapi_tenancy.Prelude.{
  ℕ, ◌≡◌, ◌↔◌, refl, ap, ◌∙◌, Text, Option, some, [], ◌∷◌, Bool, true, false, ◌&&◌, arith,
  if◌then◌else◌,
}
use fastapi_tenancy.Core.Types.{Tenant}
use fastapi_tenancy.Core.Exceptions.{Result, ok, raise, Error, tenant_not_found}
use fastapi_tenancy.Utils.Chars.{is_empty, strip, lstrip, rstrip, newline}
use fastapi_tenancy.Utils.Validation.{validate_tenant_identifier}
use fastapi_tenancy.Utils.Validation.Grammar.{chomp, is_slug, validate_tenant_identifier-eq}
use fastapi_tenancy.Resolution.Request.{Request, Lookup, or_blank, is_space}
use fastapi_tenancy.Resolution.Header.{refused, hide, identifier_of, resolve}

chomp-cons :
    (p : ℕ → Bool) (c : ℕ) (u : Text)
    → p newline ≡ true
    → chomp u ≡ u
    → chomp (if p c && is_empty u then [] else c ∷ u) ≡ (if p c && is_empty u then [] else c ∷ u)
unfolding chomp
chomp-cons p c [] h e = ground arith
chomp-cons p c (d ∷ u) h e = ground (arith, e)

-- A text that was stripped of white space does not end with a newline.
chomp-rstrip : (p : ℕ → Bool) (s : Text) → p newline ≡ true → chomp (rstrip p s) ≡ rstrip p s
unfolding rstrip
chomp-rstrip p [] h = unfold chomp in refl
chomp-rstrip p (c ∷ s) h = chomp-cons p c (rstrip p s) h (chomp-rstrip p s h)

is_slug-nonempty : (s : Text) → is_slug s ≡ true → is_empty s ≡ false
unfolding is_slug
is_slug-nonempty [] h = cc
is_slug-nonempty (c ∷ s) h = refl

hide-ok : (x : Result Tenant) (t : Tenant) → (hide x ≡ ok t) ↔ (x ≡ ok t)
unfolding hide
hide-ok x t = ground arith

hide-raise :
    (x : Result Tenant) (e : Error) {i : Option Text}
    → ((f : Error) → x ≡ raise f → f ≡ tenant_not_found i)
    → hide x ≡ raise e
    → e ≡ refused
unfolding hide
hide-raise (ok t) e only h = cc
hide-raise (raise f) e only h = ground (arith, only f refl)

valid-is_slug :
    (name : Text) (r : Request)
    → validate_tenant_identifier (identifier_of name r) ≡ is_slug (identifier_of name r)
unfolding strip is_space
valid-is_slug name r =
    validate_tenant_identifier-eq _
    ∙ ap is_slug (chomp-rstrip is_space (lstrip is_space (or_blank (r.headers name))) refl)

-- The resolver returns a tenant exactly when the stripped header is a slug (without any newline)
-- under which the store finds that tenant.
pub resolve_iff :
    (get_by_identifier : Lookup) (name : Text) (r : Request) (t : Tenant)
    → (resolve get_by_identifier name r ≡ ok t) ↔ (
        (is_slug (identifier_of name r) ≡ true) × (get_by_identifier (identifier_of name r) ≡ ok t))
unfolding resolve
resolve_iff get_by_identifier name r t =
    let i = identifier_of name r in
    let facts = hide-ok (get_by_identifier i) t in
    (
      λ h. ground (arith, facts, valid-is_slug name r),
      λ h. ground (arith, facts, valid-is_slug name r, is_slug-nonempty i),
    )

-- If a lookup in the store fails only by not finding a tenant, then all failures of the resolver
-- are the same error: a missing header, a malformed identifier and an unknown tenant look alike.
pub resolve-uniform :
    (get_by_identifier : Lookup) (name : Text) (r : Request) (e : Error)
    → ((i : Text) (f : Error) → get_by_identifier i ≡ raise f → f ≡ tenant_not_found (some i))
    → resolve get_by_identifier name r ≡ raise e
    → e ≡ refused
unfolding resolve
resolve-uniform get_by_identifier name r e only h =
    ground
      (arith, hide-raise (get_by_identifier (identifier_of name r)) e (only (identifier_of name r)))
