-- ===== src/Middleware/Tenancy.antt =====
-- middleware/tenancy.py: TenancyMiddleware. The downstream application is a parameter: for a scope
-- and a context, what it sends, how it ends, and the context that it leaves. A run lists the
-- messages in the order in which they reach the server; log lines, the messages received and the
-- headers that every error response has are left out.
pub mod Outcome
pub mod Starts
pub mod Guard
pub mod Suspended
use fastapi_tenancy.Prelude.{
  ℕ, ◌+◌, Text, codes, starts_with, Option, none, some, List, [], ◌∷◌, ◌++◌, Bool, true, false,
  ◌||◌, not, ◌==◌, if◌then◌else◌,
}
use fastapi_tenancy.Core.Types.{Tenant, is_active, status_value}
use fastapi_tenancy.Core.Exceptions.{
  Result, ok, raise, Error, Reason, tenant_not_found, tenant_resolution, tenant_inactive,
  rate_limit_exceeded, value_error, key_error, foreign,
}
use fastapi_tenancy.Core.Context.{Context, set, reset}
use fastapi_tenancy.Manager.RateLimit.{RateLimiter, check_rate_limit}

pub data ScopeType : Type 0 where
  http websocket lifespan : ScopeType

-- state_tenant is what scope["state"] has as its tenant.
pub record Scope : Type 0 where
  pub scope_type : ScopeType
  pub path : Text
  pub headers : Text → Option Text
  pub state_tenant : Option Tenant

-- The detail of an error response.
pub data Detail : Type 0 where
  reason : Reason → Detail
  text : Text → Detail

-- A response start has its status and, if there is one, its retry-after; `other` is any message of
-- the application that is none of these.
pub data Message : Type 0 where
  response_start : ℕ → Option ℕ → Message
  response_body : Detail → Message
  websocket_close : ℕ → Message
  other : Text → Message

pub record Run : Type 0 where
  pub sent : List Message
  pub raised : Option Error
  pub context : Context

abbrev pub App : Type 0
App = Scope → Context → Run

-- The manager: its resolver, its rate limiter with what Redis answers, and two settings.
pub record Manager : Type 0 where
  pub resolve : Scope → Result Tenant
  pub eval : Tenant → Option ℕ
  pub limiter : RateLimiter
  pub enable_rate_limiting : Bool
  pub rate_limit_window_seconds : ℕ

abbrev pub is_start : Message → Bool
is_start (response_start _ _) = true
is_start _ = false

-- response_started, after these messages
unfoldable pub response_started : List Message → Bool
response_started [] = false
response_started (m ∷ ms) = let rest = response_started ms in is_start m || rest

unfoldable pub json_response : ℕ → Detail → Option ℕ → List Message
json_response status detail retry = response_start status retry ∷ response_body detail ∷ []

unfoldable pub ws_close : ℕ → List Message
ws_close code = websocket_close code ∷ []

-- _send_error
unfoldable pub send_error : ScopeType → Bool → ℕ → Detail → Option ℕ → List Message
unfolding json_response ws_close
send_error http started status detail retry =
    if started then [] else json_response status detail retry
send_error _ started status detail retry = ws_close (if status == 500 then 1011 else 1008)

unfoldable pub is_excluded : List Text → Text → Bool
is_excluded [] path = false
is_excluded (prefix ∷ rest) path =
    let later = is_excluded rest path in starts_with prefix path || later

-- An error response before the application has run.
abbrev pub refuse : Scope → Context → ℕ → Detail → Option ℕ → Run
refuse scope c status detail retry = record {
  sent = send_error scope.scope_type false status detail retry;
  raised = none;
  context = c;
}

abbrev pub internal : Detail
internal = text (codes "Internal tenancy error")

abbrev pub slow_down : Detail
slow_down = text (codes "Rate limit exceeded. Please slow down.")

-- The handlers around the resolver.
unfoldable pub on_resolution_error : Scope → Context → Error → Run
on_resolution_error scope c (tenant_resolution r s) = refuse scope c 400 (reason r) none
on_resolution_error scope c (tenant_not_found i) =
    refuse scope c 404 (text (codes "Tenant not found")) none
on_resolution_error scope c value_error = record {
  sent = [];
  raised = some value_error;
  context = c;
}
on_resolution_error scope c key_error = record { sent = []; raised = some key_error; context = c }
on_resolution_error scope c foreign = record { sent = []; raised = some foreign; context = c }
on_resolution_error scope c e = refuse scope c 500 internal none

abbrev pub with_error : Scope → Run → ℕ → Detail → Option ℕ → Run
with_error scope run status detail retry = record run {
  sent = run.sent ++ send_error scope.scope_type (response_started run.sent) status detail retry;
  raised = none;
}

-- The handlers around the application.
unfoldable pub on_app_error : ℕ → Scope → Run → Error → Run
on_app_error window scope run rate_limit_exceeded = with_error scope run 429 slow_down (some window)
on_app_error window scope run tenant_inactive =
    with_error scope run 403 (text (codes "Tenant is not active.")) none
on_app_error window scope run value_error = run
on_app_error window scope run key_error = run
on_app_error window scope run foreign = run
on_app_error window scope run e = with_error scope run 500 internal none

-- The run after the handlers.
unfoldable pub after_app : ℕ → Scope → Run → Run
after_app window scope run = elim run.raised [
  | none ↦ run
  | some e ↦ on_app_error window scope run e
]

-- From TenantContext.set to the `finally`.
unfoldable pub serve : Manager → App → Scope → Context → Tenant → Run
serve m app scope c tenant =
    let (token, c1) = set tenant c in
    let run = app (record scope { state_tenant = some tenant }) c1 in
    let handled = after_app m.rate_limit_window_seconds scope run in
    record handled { context = reset token handled.context }

-- The rate limit, when it is enabled.
unfoldable pub admit : Manager → App → Scope → Context → Tenant → Run
admit m app scope c tenant =
    if m.enable_rate_limiting
    then elim (check_rate_limit m.eval m.limiter tenant) [
      | ok _ ↦ serve m app scope c tenant
      | raise rate_limit_exceeded ↦ refuse scope c 429 slow_down (some m.rate_limit_window_seconds)
      | raise e ↦ record { sent = []; raised = some e; context = c }
    ]
    else serve m app scope c tenant

abbrev pub not_active : Tenant → Detail
not_active t = text (codes "Tenant is not active (status: " ++ status_value t.status ++ codes ")")

-- _handle
unfoldable pub handle : Manager → App → Scope → Context → Run
handle m app scope c = elim (m.resolve scope) [
  | raise e ↦ on_resolution_error scope c e
  | ok tenant ↦
      if is_active tenant
      then admit m app scope c tenant
      else refuse scope c 403 (not_active tenant) none
]

-- __call__
unfoldable pub call : Manager → List Text → App → Scope → Context → Run
call m excluded app scope c = elim scope.scope_type [
  | lifespan ↦ app scope c
  | _ ↦ if is_excluded excluded scope.path then app scope c else handle m app scope c
]
