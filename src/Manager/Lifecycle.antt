-- ===== src/Manager/Lifecycle.antt =====
-- manager.py: the start and the end of a TenancyManager, its lifespan, the loop that purges its
-- cache, and the audit log. Which steps of other objects raise is a parameter; a step
-- that is tried is listed. The loop wakes up as its sleep ends.
pub mod Purge
pub mod Lifespan
use fastapi_tenancy.Prelude.{
  ℕ, ◌+◌, ◌*◌, ◌/◌, List, [], ◌∷◌, ◌++◌, Option, none, some, Bool, true, false, not, ◌&&◌, ltb,
  length, if◌then◌else◌, Text,
}
use fastapi_tenancy.Core.Types.{AuditLog}
use fastapi_tenancy.Core.Config.{TenancyConfig, or_blank}
use fastapi_tenancy.Core.Exceptions.{Result, ok, raise, Error, ◌>>=◌}
use fastapi_tenancy.Cache.TenantCache.{TenantCache, second, purge_expired}
use fastapi_tenancy.Cache.TenantCache.Run.{Command, run}
use fastapi_tenancy.Utils.Chars.{is_empty}

pub data Step : Type 0 where
  store_initialize warm_cache connect_limiter provider_close store_close : Step

-- Whether the store has warm_cache and the isolation provider close, whether there are a first-level
-- cache and the redis package, and how a step ends.
pub record World : Type 0 where
  pub can_warm : Bool
  pub can_close : Bool
  pub has_cache : Bool
  pub has_redis : Bool
  pub ends : Step → Option Error

-- Whether the purge task runs, whether the rate limiter is connected and enabled, and the steps that
-- were tried, the last first.
pub record Manager : Type 0 where
  pub purging : Bool
  pub limiter : Bool
  pub limiting : Bool
  pub tried : List Step

abbrev pub Action : Type 0
Action = Manager → Result (Unit {0}) × Manager

infixl 5 ◌then_do◌
abbrev pub ◌then_do◌ : Action → Action → Action
(m then_do k) s = let (r, s') = m s in elim r [ ok _ ↦ k s' | raise e ↦ (raise e, s') ]

abbrev pub skip : Action
skip s = (ok tt, s)

abbrev pub when : Bool → Action → Action
when true m s = m s
when false m s = (ok tt, s)

module _ (w : World) where
  unfoldable pub try_step : Step → Action
  try_step step s =
      let s' : Manager = record s { tried = step ∷ s.tried } in
      elim (w.ends step) [ none ↦ (ok tt, s') | some e ↦ (raise e, s') ]

  -- A task that runs is left alone.
  unfoldable pub start_purge : Action
  start_purge s = (ok tt, record s { purging = true })

  -- Without the redis package, rate limiting is switched off.
  unfoldable pub init_rate_limiter : Action
  unfolding try_step
  init_rate_limiter s =
      if w.has_redis
      then (let (r, s') = try_step connect_limiter s in
          elim r [ ok _ ↦ (ok tt, record s' { limiter = true }) | raise e ↦ (raise e, s') ])
      else (ok tt, record s { limiting = false })

  unfoldable pub initialize : TenancyConfig → Action
  unfolding try_step start_purge init_rate_limiter
  initialize config =
      try_step store_initialize
      then_do when (config.cache_enabled && w.can_warm) (try_step warm_cache)
      then_do when w.has_cache start_purge
      then_do when (config.enable_rate_limiting && not (is_empty (or_blank config.redis_url)))
          init_rate_limiter

  unfoldable pub cancel_purge : Action
  cancel_purge s = (ok tt, record s { purging = false })

  unfoldable pub close : Action
  unfolding try_step cancel_purge
  close =
      cancel_purge then_do when w.can_close (try_step provider_close) then_do try_step store_close

  -- The block, with what it leaves the manager at; the `finally` runs whatever it gives.
  unfoldable pub lifespan : TenancyConfig → Action → Action
  lifespan config block = initialize config then_do λ s.
      let (r, s1) = block s in let (closed, s2) = close s1 in (closed >>= λ _. r, s2)

-- max(1, ttl // 2), in nanoseconds
unfoldable pub purge_interval : ℕ → ℕ
purge_interval ttl = (if ltb (ttl / 2) 1 then 1 else ttl / 2) * second

-- Rounds of the loop from a time on; a round has what others do to the cache while it sleeps.
unfoldable pub purge_loop : ℕ → ℕ → List (List Command) → TenantCache → TenantCache
unfolding run purge_expired
purge_loop interval now [] c = c
purge_loop interval now (commands ∷ rounds) c =
    purge_loop interval (now + interval) rounds (purge_expired (now + interval) (run commands c)).1

-- `writer` is the configured one.
unfoldable pub write_audit_log : {S : Type 0} → (AuditLog → S → S) → AuditLog → S → S
write_audit_log writer entry s = writer entry s
