-- ===== src/Dependencies/Sessions.antt =====
-- dependencies.py, isolation/schema.py, middleware/tenancy.py: an exception of a route that has a
-- session.
use fastapi_tenancy.Prelude.{◌≡◌, refl, ℕ, Text, List, none, some, true, arith}
use fastapi_tenancy.Core.Types.{Tenant}
use fastapi_tenancy.Core.Exceptions.{Result, ok, raise, Error, isolation}
use fastapi_tenancy.Core.Context.{Context, get_current_tenant, get}
use fastapi_tenancy.Core.Config.{TenancyConfig}
use fastapi_tenancy.Utils.DbCompat.{postgresql}
use fastapi_tenancy.Isolation.Session.{Block, Served, served, or_isolation}
use fastapi_tenancy.Isolation.Schema.{validated_schema_name}
use fastapi_tenancy.Isolation.Schema.Sessions.{get_session, schema_session, in_schema}
use fastapi_tenancy.Middleware.Tenancy.{
  Scope, Message, http, internal, json_response, after_app, on_app_error, send_error,
  response_started,
}
use fastapi_tenancy.Dependencies.{Answer, answered, tenant_route, tenant_db_route}

schema_session-raise :
    {A : Type 0} (config : TenancyConfig) (t : Tenant) (schema : Text) (block : Block A) (e : Error)
    → validated_schema_name config t ≡ ok schema
    → block.result ≡ raise e
    → (schema_session true config t block).result ≡ raise isolation
unfolding schema_session served or_isolation
schema_session-raise config t schema block e v r = rw (v, in_schema, r) refl

route-raise :
    (answer : Answer) (route : Tenant → Result (List Message)) (t : Tenant) (e : Error)
    (scope : Scope) (c : Context)
    → c.tenant ≡ some t
    → route t ≡ raise e
    → tenant_route answer route scope c ≡ answered answer c (raise e)
unfolding tenant_route get_current_tenant get
route-raise answer route t e scope c p r = ground (arith, p, r)

answered-some :
    (answer : Answer) (e : Error) (reply : List Message) (window : ℕ) (scope : Scope) (c : Context)
    → answer e ≡ some reply
    → (after_app window scope (answered answer c (raise e))).sent ≡ reply
unfolding answered after_app
answered-some answer e reply window scope c a = rw (a, answered) refl

answered-none :
    (answer : Answer) (window : ℕ) (scope : Scope) (c : Context)
    → scope.scope_type ≡ http
    → answer isolation ≡ none
    → (after_app window scope (answered answer c (raise isolation))).sent
      ≡ json_response 500 internal none
unfolding answered after_app on_app_error send_error response_started
answered-none answer window scope c h a = rw (a, answered, h, send_error) refl

-- On PostgreSQL, under the middleware: where FastAPI answers the exception that a route raises, as it
-- answers an HTTPException, but leaves IsolationError to the middleware, the client gets that
-- answer from the route by itself, and a 500 when the route depends on a session as well.
pub tenant_db_route-internal :
    (answer : Answer) (delegate : Block (List Message) → Served (List Message))
    (config : TenancyConfig) (t : Tenant) (schema : Text) (route : Tenant → Block (List Message))
    (e : Error) (reply : List Message) (window : ℕ) (scope : Scope) (c : Context)
    → scope.scope_type ≡ http
    → c.tenant ≡ some t
    → validated_schema_name config t ≡ ok schema
    → (route t).result ≡ raise e
    → answer e ≡ some reply
    → answer isolation ≡ none
    → ((after_app window scope (tenant_route answer (λ u. (route u).result) scope c)).sent ≡ reply)
      × ((after_app window scope (
            tenant_db_route answer
              (get_session delegate true postgresql config)
              route
              scope
              c)).sent
          ≡ json_response 500 internal none)
unfolding tenant_db_route get_session
tenant_db_route-internal answer delegate config t schema route e reply window scope c h p v r a i =
    (
      rw (route-raise answer (λ u. (route u).result) t e scope c p r)
          (answered-some answer e reply window scope c a),
      rw
          (route-raise answer (λ u. (schema_session true config u (route u)).result) t isolation
            scope c p (schema_session-raise config t schema (route t) e v r))
          (answered-none answer window scope c h i),
    )
