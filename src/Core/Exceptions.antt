-- ===== src/Core/Exceptions.antt =====
-- core/exceptions.py: the errors that the modelled code raises, and the result of code that may
-- raise. A reason is a constructor with the values that the message shows.
use fastapi_tenancy.Prelude.{◌⊎◌, inl, inr, Text, Option, ◌≡◌, refl}
use fastapi_tenancy.Core.Types.{ResolutionStrategy}

pub data Reason : Type 0 where
  generic : Reason
  path_prefix : Text → Text → Reason
  path_empty : Text → Reason
  path_segment : Text → Reason
  host_suffix : Text → Text → Reason
  host_bare : Text → Reason
  subdomain_invalid : Text → Reason
  host_missing : Reason
  auth_missing : Reason
  auth_scheme : Reason
  token_empty : Reason
  token_expired : Reason
  token_audience : Reason
  token_invalid : Reason
  claim_missing : Text → Reason
  claim_invalid : Text → Reason

-- `tenancy` is any other subclass of TenancyError, and `foreign` an exception of a library.
pub data Error : Type 0 where
  tenant_not_found : Option Text → Error
  tenant_resolution : Reason → ResolutionStrategy → Error
  tenant_inactive : Error
  rate_limit_exceeded : Error
  isolation : Error
  configuration : Error
  tenancy : Error
  value_error : Error
  key_error : Error
  foreign : Error

pub data Result {ℓ} (A : Type ℓ) : Type ℓ where
  ok : A → Result A
  raise : Error → Result A

infixl 10 ◌>>=◌
abbrev pub ◌>>=◌ {ℓ κ} : {A : Type ℓ} {B : Type κ} → Result A → (A → Result B) → Result B
ok a >>= f = f a
raise e >>= f = raise e

-- Where a chain gives a value, its first step gave one that the rest goes on with.
pub bind-ok {κ ℓ} :
    {X : Type κ} {Y : Type ℓ} (first : Result X) (rest : X → Result Y) {y : Y}
    → (first >>= rest) ≡ ok y
    → (x : X) × (first ≡ ok x) × (rest x ≡ ok y)
bind-ok (raise e) rest h = cc
bind-ok (ok x) rest h = (x, refl, h)

pub Result-cases {ℓ} :
    {A : Type ℓ} (r : Result A) → ((a : A) × (r ≡ ok a)) ⊎ ((e : Error) × (r ≡ raise e))
Result-cases (ok a) = inl (a, refl)
Result-cases (raise e) = inr (e, refl)
