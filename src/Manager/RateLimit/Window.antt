-- ===== src/Manager/RateLimit/Window.antt =====
-- manager.py: the Lua script _RATE_LIMIT_LUA on the sorted set of one tenant, and check_rate_limit
-- with it. Redis runs a script in one step. Times are microseconds.
use fastapi_tenancy.Prelude.{
  ℕ, ◌+◌, ◌-◌, ◌*◌, Text, Option, none, some, List, [], ◌∷◌, not, ◌||◌, ltb, leb, length, keep,
  if◌then◌else◌,
}
use fastapi_tenancy.Prelude.Dict.{Dict, put}
use fastapi_tenancy.Core.Types.{Tenant}
use fastapi_tenancy.Core.Exceptions.{Result}
use fastapi_tenancy.Manager.RateLimit.{RateLimiter, check_rate_limit}

-- The sorted set, from members to scores, and when Redis drops it.
pub record Window : Type 0 where
  pub members : Dict ℕ
  pub expires_at : Option ℕ

abbrev pub second : ℕ
second = 1000000

-- The members that Redis has at a time.
unfoldable pub live : ℕ → Window → Dict ℕ
live now w = elim w.expires_at [ none ↦ w.members | some t ↦ if leb t now then [] else w.members ]

-- ZREMRANGEBYSCORE key -inf win_start
abbrev pub evict_older : ℕ → Dict ℕ → Dict ℕ
evict_older win_start d = keep (λ e. ltb win_start e.1) d

unfoldable pub rate_limit_lua : ℕ → ℕ → ℕ → ℕ → Text → Window → ℕ × Window
unfolding live
rate_limit_lua now win_start limit window member w =
    let d = evict_older win_start (live now w) in
    if leb limit (length d) then (length d, record w { members = d }) else (
      length d + 1,
      record { members = put member now d; expires_at = some (now + window * second) },
    )

-- One call of check_rate_limit, with its time and its unique member.
unfoldable pub check : RateLimiter → ℕ → Tenant → ℕ → Text → Window → Result (Unit {0}) × Window
unfolding check_rate_limit rate_limit_lua
check l window tenant now member w =
    if not l.rate_limiting_enabled || not l.has_rate_limiter
    then (check_rate_limit (λ _. none) l tenant, w)
    else let (count, w') =
        rate_limit_lua now (now - window * second) l.rate_limit_per_minute window member w in
      (check_rate_limit (λ _. some count) l tenant, w')

-- Calls one after the other: what each returns.
unfoldable pub replies :
    RateLimiter → ℕ → Tenant → List (ℕ × Text) → Window → List (Result (Unit {0}))
unfolding check
replies l window tenant [] w = []
replies l window tenant ((now, member) ∷ calls) w =
    let (r, w') = check l window tenant now member w in r ∷ replies l window tenant calls w'
