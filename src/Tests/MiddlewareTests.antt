-- ===== src/Tests/MiddlewareTests.antt =====
-- The middleware.
use fastapi_tenancy.Prelude.{◌≡◌, ◌≤◌, refl, codes, none, some, [], ◌∷◌, true, false, arith}
use fastapi_tenancy.Core.Types.{Tenant, is_active}
use fastapi_tenancy.Core.Exceptions.{ok, raise, isolation, value_error}
use fastapi_tenancy.Core.Context.{Context, set, reset}
use fastapi_tenancy.Manager.RateLimit.{check_rate_limit}
use fastapi_tenancy.Middleware.Tenancy.{
  http, Scope, response_start, response_body, App, Manager, response_started, send_error,
  on_app_error, after_app, serve, admit, on_resolution_error, handle, call, slow_down,
  json_response,
}
use fastapi_tenancy.Middleware.Tenancy.Starts.{starts, call-starts}
use fastapi_tenancy.Middleware.Tenancy.Guard.{
  IsHandled, is_foreign, call-restores, call-absorbs, call-guards,
}
use fastapi_tenancy.Middleware.Tenancy.{is_excluded}
use fastapi_tenancy.Prelude.{List, Text, false, starts_with}
use fastapi_tenancy.Tests.Samples.{acme, globex}

abbrev outside : Context
outside = record { tenant = some globex; metadata = none }

abbrev connection : Scope
connection = record {
  scope_type = http;
  path = codes "/orders";
  headers = λ _. none;
  state_tenant = none;
}

-- A manager that resolves one tenant, of which Redis has counted six requests of five.
abbrev strict : Manager
strict = record {
  resolve = λ _. ok acme;
  eval = λ _. some 6;
  limiter = record {
    rate_limiting_enabled = true;
    has_rate_limiter = true;
    rate_limit_per_minute = 5;
    rate_limit_fail_closed = false;
  };
  enable_rate_limiting = true;
  rate_limit_window_seconds = 60;
}

abbrev lenient : Manager
lenient = record strict { enable_rate_limiting = false }

abbrev broken : Manager
broken = record strict { resolve = λ _. raise value_error }

abbrev blocked : Manager
blocked = record lenient { resolve = λ _. ok globex }

-- An application that starts its response and then raises, with another tenant in the context.
abbrev fails_late : App
fails_late s c = record {
  sent = response_start 200 none ∷ [];
  raised = some isolation;
  context = record c { tenant = none };
}

abbrev silent : App
silent s c = record { sent = []; raised = none; context = c }

fails_late-starts : (s : Scope) (d : Context) → starts (fails_late s d).sent ≤ 1
unfolding starts
fails_late-starts s d = omega arith

late_error : (handle lenient fails_late connection outside).sent ≡ response_start 200 none ∷ []
unfolding handle admit serve set reset after_app on_app_error is_active send_error response_started
late_error = refl

over_limit :
    (handle strict fails_late connection outside).sent
    ≡ response_start 429 (some 60) ∷ response_body slow_down ∷ []
unfolding handle admit serve check_rate_limit is_active send_error json_response
over_limit = refl

breaks : (handle broken fails_late connection outside).raised ≡ some value_error
unfolding handle on_resolution_error
breaks = refl

blocked_inactive :
    (t : Tenant)
    → blocked.resolve connection ≡ ok t
    → is_active t ≡ true
    → fails_late (record connection { state_tenant = some t }) (record outside { tenant = some t })
      ≡ silent (record connection { state_tenant = some t }) (record outside { tenant = some t })
unfolding is_active
blocked_inactive t r a = absurd (ground arith)

abbrev excluded : List Text
excluded = codes "/health" ∷ []

connection-IsHandled : IsHandled excluded connection
unfolding is_excluded starts_with
connection-IsHandled = (λ e. cc, refl)

call-guards_example :
    call blocked excluded fails_late connection outside
    ≡ call blocked excluded silent connection outside
call-guards_example =
    call-guards blocked excluded fails_late connection outside connection-IsHandled silent
      blocked_inactive

call_breaks : (call broken excluded fails_late connection outside).raised ≡ some value_error
unfolding call is_excluded starts_with handle on_resolution_error
call_breaks = refl

call-absorbs_example : is_foreign value_error ≡ true
call-absorbs_example =
    call-absorbs broken excluded fails_late connection outside connection-IsHandled value_error
      call_breaks

call-starts_example :
    starts (call lenient (codes "/health" ∷ []) fails_late connection outside).sent ≤ 1
call-starts_example =
    call-starts lenient (codes "/health" ∷ []) fails_late connection outside fails_late-starts

call-restores_example :
    (call lenient excluded fails_late connection outside).context.tenant ≡ some globex
call-restores_example =
    call-restores lenient excluded fails_late connection outside connection-IsHandled
