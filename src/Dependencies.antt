-- ===== src/Dependencies.antt =====
-- dependencies.py: the three factories over a manager. FastAPI is a parameter: the messages with which
-- it answers an exception, if it does. It raises the exception of a route within the `async with`
-- of a dependency that yields. What Pydantic makes of a JSON value is a parameter, too.
pub mod Sessions
pub mod Settings
use fastapi_tenancy.Prelude.{
  ℕ, Text, codes, List, [], ◌∷◌, Option, none, some, Bool, true, false, ◌&&◌, leb, ◌==◌, not,
  if◌then◌else◌,
}
use fastapi_tenancy.Prelude.Dict.{Dict, get}
use fastapi_tenancy.Core.Types.{Tenant, TenantConfig, AuditLog, Json, null}
use fastapi_tenancy.Core.Exceptions.{Result, ok, raise, Error, value_error, ◌>>=◌}
use fastapi_tenancy.Core.Context.{Context, get_current_tenant}
use fastapi_tenancy.Isolation.Session.{Block, Served}
use fastapi_tenancy.Middleware.Tenancy.{App, Run, Scope, Message}
use fastapi_tenancy.Utils.Chars.{is_empty}

-- Which exceptions FastAPI answers, and how.
abbrev pub Answer : Type 0
Answer = Error → Option (List Message)

-- A route's end, as the middleware meets it.
unfoldable pub answered : Answer → Context → Result (List Message) → Run
answered answer c (ok sent) = record { sent = sent; raised = none; context = c }
answered answer c (raise e) = elim (answer e) [
  | some sent ↦ record { sent = sent; raised = none; context = c }
  | none ↦ record { sent = []; raised = some e; context = c }
]

-- A route that depends on the current tenant.
unfoldable pub tenant_route : Answer → (Tenant → Result (List Message)) → App
unfolding answered get_current_tenant
tenant_route answer route scope c = answered answer c (do t ← get_current_tenant c; route t)

-- A route that depends on make_tenant_db_dependency(manager), too; `session` is the isolation
-- provider's get_session around a block.
unfoldable pub tenant_db_route :
    Answer
    → (Tenant → Block (List Message) → Served (List Message))
    → (Tenant → Block (List Message))
    → App
unfolding tenant_route
tenant_db_route answer session route = tenant_route answer λ t. (session t (route t)).result

-- Pydantic's reading of an integer, as its sign and size, of a list of texts and of a dict.
pub record Parser : Type 0 where
  pub int : Json → Option (Bool × ℕ)
  pub texts : Json → Option (List Text)
  pub fields : Json → Option (Dict Json)

abbrev pub valid {ℓ} : {A : Type ℓ} → Option A → Result A
valid none = raise value_error
valid (some a) = ok a

-- ge=0
abbrev pub at_least_0 : Bool × ℕ → Result ℕ
at_least_0 (negative, n) = if negative && not (n == 0) then raise value_error else ok n

-- ge=1, le=10_000
abbrev pub rate_limit : Bool × ℕ → Result ℕ
rate_limit (negative, n) =
    if not negative && (leb 1 n && leb n 10000) then ok n else raise value_error

-- A quota; a value that is not there is None.
unfoldable pub quota : Parser → Option Json → Result (Option ℕ)
quota p none = ok none
quota p (some null) = ok none
quota p (some v) = do n ← valid (p.int v); size ← at_least_0 n; ok (some size)

abbrev pub or_default {ℓ} : {A : Type ℓ} → A → (Json → Result A) → Option Json → Result A
or_default a parse none = ok a
or_default a parse (some v) = parse v

unfoldable pub model_validate : Parser → Dict Json → Result TenantConfig
unfolding quota get
model_validate p metadata = do
  users ← quota p (get (codes "max_users") metadata)
  storage ← quota p (get (codes "max_storage_gb") metadata)
  features ← or_default [] (λ v. valid (p.texts v)) (get (codes "features_enabled") metadata)
  rate ←
      or_default 100 (λ v. valid (p.int v) >>= rate_limit)
        (get (codes "rate_limit_per_minute") metadata)
  settings ← or_default [] (λ v. valid (p.fields v)) (get (codes "custom_settings") metadata)
  ok (record {
    max_users = users;
    max_storage_gb = storage;
    features_enabled = features;
    rate_limit_per_minute = rate;
    custom_settings = settings;
  })

-- _get_tenant_config
unfoldable pub get_tenant_config : Parser → Tenant → Result TenantConfig
unfolding model_validate
get_tenant_config p t = model_validate p t.metadata

abbrev pub or_no_metadata : Option (Dict Json) → Dict Json
or_no_metadata none = []
or_no_metadata (some d) = d

-- log of _get_audit_logger: the entry, unless AuditLog refuses it, goes to the manager's writer.
-- The host of the client and the user agent come from the request, the last argument but one
-- from the clock, and the last is what was written before.
unfoldable pub log :
    Tenant
    → Option Text
    → Option Text
    → Text
    → Text
    → Option Text
    → Option (Dict Json)
    → Option Text
    → ℕ
    → List AuditLog
    → Result (Unit {0}) × List AuditLog
log t client_ip agent action resource resource_id metadata user_id now written =
    let entry : AuditLog = record {
      tenant_id = t.id;
      user_id = user_id;
      action = action;
      resource = resource;
      resource_id = resource_id;
      metadata = or_no_metadata metadata;
      ip_address = client_ip;
      user_agent = agent;
      timestamp = now;
    } in
    if not (is_empty action) && not (is_empty resource)
    then (ok tt, entry ∷ written)
    else (raise value_error, written)
