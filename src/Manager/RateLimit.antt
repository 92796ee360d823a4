-- ===== src/Manager/RateLimit.antt =====
-- manager.py: TenancyManager.check_rate_limit. Redis is a parameter: the count that the script
-- returns for a tenant, or nothing where the call raises. The script itself is RateLimit/Window.
pub mod Window
pub mod Enforcement
use fastapi_tenancy.Prelude.{ℕ, Option, none, some, Bool, not, ◌||◌, ltb, if◌then◌else◌}
use fastapi_tenancy.Core.Types.{Tenant}
use fastapi_tenancy.Core.Exceptions.{Result, ok, raise, rate_limit_exceeded}

pub record RateLimiter : Type 0 where
  pub rate_limiting_enabled : Bool
  pub has_rate_limiter : Bool
  pub rate_limit_per_minute : ℕ
  pub rate_limit_fail_closed : Bool

unfoldable pub check_rate_limit : (Tenant → Option ℕ) → RateLimiter → Tenant → Result (Unit {0})
check_rate_limit eval l tenant =
    if not l.rate_limiting_enabled || not l.has_rate_limiter then ok tt else elim (eval tenant) [
      | some count ↦ if ltb l.rate_limit_per_minute count then raise rate_limit_exceeded else ok tt
      | none ↦ if l.rate_limit_fail_closed then raise rate_limit_exceeded else ok tt
    ]
