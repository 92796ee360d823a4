-- ===== src/Middleware/Tenancy/Outcome.antt =====
-- middleware/tenancy.py: the ways in which _handle ends.
use mathlib.Core.Path.{subst}
use fastapi_tenancy.Prelude.{
  ◌≡◌, refl, sym, ℕ, Option, none, some, true, false, not, ◌||◌, Option-cases, Bool-cases, ltb, ◌⊎◌,
  arith, inl, inr,
}
use fastapi_tenancy.Core.Types.{Tenant, is_active}
use fastapi_tenancy.Core.Exceptions.{ok, raise, Error, Result-cases, rate_limit_exceeded}
use fastapi_tenancy.Core.Context.{Context}
use fastapi_tenancy.Manager.RateLimit.{RateLimiter, check_rate_limit}
use fastapi_tenancy.Middleware.Tenancy.{
  Scope, Run, App, Manager, refuse, on_resolution_error, serve, admit, handle, slow_down,
  not_active,
}

check_rate_limit-cases :
    (eval : Tenant → Option ℕ) (l : RateLimiter) (t : Tenant)
    → (check_rate_limit eval l t ≡ ok tt) ⊎ (check_rate_limit eval l t ≡ raise rate_limit_exceeded)
unfolding check_rate_limit
check_rate_limit-cases eval l t =
    elim (Bool-cases (not l.rate_limiting_enabled || not l.has_rate_limiter)) [
      | inl e ↦ rw e (inl refl)
      | inr e ↦ elim (Option-cases (eval t)) [
        | inl f ↦ elim (Bool-cases l.rate_limit_fail_closed) [
          | inl g ↦ rw (e, f, g) (inr refl)
          | inr g ↦ rw (e, f, g) (inl refl)
        ]
        | inr (n, f) ↦ elim (Bool-cases (ltb l.rate_limit_per_minute n)) [
          | inl g ↦ rw (e, f, g) (inr refl)
          | inr g ↦ rw (e, f, g) (inl refl)
        ]
      ]
    ]

-- How _handle ends, with the reason.
pub data Outcome (m : Manager) (app : App) (scope : Scope) (c : Context) : Run → Type 0 where
  unresolved :
      (e : Error)
      → m.resolve scope ≡ raise e
      → Outcome m app scope c (on_resolution_error scope c e)
  inactive :
      (t : Tenant)
      → m.resolve scope ≡ ok t
      → is_active t ≡ false
      → Outcome m app scope c (refuse scope c 403 (not_active t) none)
  limited :
      (t : Tenant)
      → m.resolve scope ≡ ok t
      → is_active t ≡ true
      → m.enable_rate_limiting ≡ true
      → check_rate_limit m.eval m.limiter t ≡ raise rate_limit_exceeded
      → Outcome m app scope c (refuse scope c 429 slow_down (some m.rate_limit_window_seconds))
  served :
      (t : Tenant)
      → m.resolve scope ≡ ok t
      → is_active t ≡ true
      → (m.enable_rate_limiting ≡ false) ⊎ (check_rate_limit m.eval m.limiter t ≡ ok tt)
      → Outcome m app scope c (serve m app scope c t)

module _ (m : Manager) (app : App) (scope : Scope) (c : Context) where
  becomes : {r run : Run} → r ≡ run → Outcome m app scope c run → Outcome m app scope c r
  becomes e o = subst (Outcome m app scope c) (sym e) o

  admit-Outcome :
      (t : Tenant)
      → m.resolve scope ≡ ok t
      → is_active t ≡ true
      → Outcome m app scope c (admit m app scope c t)
  unfolding admit
  admit-Outcome t r a = elim (Bool-cases m.enable_rate_limiting) [
    | inr e ↦ becomes (ground (arith, e)) (served t r a (inl e))
    | inl e ↦ elim (check_rate_limit-cases m.eval m.limiter t) [
      | inl f ↦ becomes (ground (arith, e, f)) (served t r a (inr f))
      | inr f ↦ becomes (ground (arith, e, f)) (limited t r a e f)
    ]
  ]

  -- What _handle does with a connection has one of four reasons: what the resolver raised, a tenant
  -- that is not active, one over its rate limit, or an active tenant within its limit.
  pub handle-Outcome : Outcome m app scope c (handle m app scope c)
  unfolding handle
  handle-Outcome = elim (Result-cases (m.resolve scope)) [
    | inr (e, f) ↦ becomes (ground (arith, f)) (unresolved e f)
    | inl (t, f) ↦ elim (Bool-cases (is_active t)) [
      | inl a ↦ becomes (ground (arith, f, a)) (admit-Outcome t f a)
      | inr a ↦ becomes (ground (arith, f, a)) (inactive t f a)
    ]
  ]
