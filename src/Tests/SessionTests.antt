-- ===== src/Tests/SessionTests.antt =====
-- Sessions, tenant databases, dependencies and the life of the manager.
use fastapi_tenancy.Prelude.{
  ◌≡◌, ◌≢◌, refl, ap, ℕ, Text, codes, contains, List, none, some, [], ◌∷◌, true, false, map, arith,
}
use fastapi_tenancy.Core.Types.{Tenant}
use fastapi_tenancy.Core.Context.{Context}
use fastapi_tenancy.Core.Exceptions.{Result, ok, raise, foreign, isolation}
use fastapi_tenancy.Utils.Validation.{validate_schema_name, validate_database_name}
use fastapi_tenancy.Utils.Chars.{is_lower, is_word, strip, replace}
use fastapi_tenancy.Utils.Sanitize.{
  sanitize_identifier, core_sanitize_identifier, or_tenant, lead, collapse, mask, is_alpha,
}
use fastapi_tenancy.Utils.DbCompat.{postgresql}
use fastapi_tenancy.Isolation.Database.{database_name}
use fastapi_tenancy.Isolation.Database.Provisioning as Databases
use fastapi_tenancy.Isolation.Database.Provisioning.{State, Faults}
use fastapi_tenancy.Isolation.Database.Provisioning.Lifecycle.{destroy_tenant-initialize_tenant}
use fastapi_tenancy.Isolation.Session.{
  begun, ran, ended, Block, Served, refused, AllMeet, connections_of,
}
use fastapi_tenancy.Isolation.Schema.{validated_schema_name, set_path_sql}
use fastapi_tenancy.Isolation.Schema.Sessions.{get_session}
use fastapi_tenancy.Isolation.Schema.Sessions.Confined.{get_session-AllMeet}
use fastapi_tenancy.Isolation.Rls.Sessions as Rls
use fastapi_tenancy.Isolation.Rls.Sessions.{own, get_session-settings}
use fastapi_tenancy.Middleware.Tenancy.{
  Scope, http, Message, response_start, json_response, internal, after_app,
}
use fastapi_tenancy.Dependencies.{Answer, tenant_route, tenant_db_route}
use fastapi_tenancy.Dependencies.Sessions.{tenant_db_route-internal}
use fastapi_tenancy.Tests.Samples.{acme, sample_config}

-- A tenant with a schema of its own.
abbrev named : Tenant
named = record acme { schema_name = some (codes "acme") }

named_schema : validated_schema_name sample_config named ≡ ok (codes "acme")
unfolding validated_schema_name validate_schema_name is_lower is_word
named_schema = refl

-- A statement, a commit, and two statements in a second transaction on another connection.
abbrev committing : Block (Unit {0})
committing = record { events = ran ∷ ended ∷ begun 2 ∷ ran ∷ ran ∷ []; result = ok tt }

abbrev delegate : {A : Type 0} → Block A → Served A
delegate b = refused isolation false

get_session-AllMeet_example :
    AllMeet
      (some (set_path_sql (codes "acme")))
      (get_session delegate true postgresql sample_config named committing).settings
get_session-AllMeet_example =
    get_session-AllMeet delegate sample_config named (codes "acme") committing named_schema
      (refl, (refl, (refl, tt)))

get_session-settings_example :
    (Rls.get_session true 1 acme committing).settings
    ≡ map (own 1 acme) (connections_of 1 committing.events)
get_session-settings_example = get_session-settings 1 acme committing (refl, (refl, (refl, tt)))

-- FastAPI answers an exception of a library, here an HTTPException, and no other.
abbrev not_found : List Message
not_found = response_start 404 none ∷ []

abbrev answers : Answer
answers foreign = some not_found
answers e = none

abbrev failing : Tenant → Block (List Message)
failing t = record { events = ran ∷ []; result = raise foreign }

abbrev request : Scope
request = record {
  scope_type = http;
  path = codes "/orders/7";
  headers = λ h. none;
  state_tenant = none;
}

abbrev within : Context
within = record { tenant = some named; metadata = none }

tenant_db_route-internal_example :
    ((after_app 60 request (tenant_route answers (λ u. (failing u).result) request within)).sent
      ≡ not_found)
    × ((after_app 60 request (
          tenant_db_route answers
            (get_session delegate true postgresql sample_config)
            failing
            request
            within)).sent
        ≡ json_response 500 internal none)
tenant_db_route-internal_example =
    tenant_db_route-internal answers delegate sample_config named (codes "acme") failing foreign
      not_found 60 request within refl refl named_schema refl refl refl

abbrev no_databases : State
no_databases = record {
  databases = codes "postgres" ∷ [];
  files = [];
  engines = record { cache = []; max_size = 2 };
  disposed = [];
}

abbrev no_faults : Faults
no_faults = record { statement = false; tables = false; unlink = false }

abbrev initialized : Result (Unit {0}) × State
initialized =
    Databases.initialize_tenant (λ s. s) (λ u i d. u) (λ u. u) sample_config no_faults postgresql
      false acme 7 no_databases

abbrev destroyed : Result (Unit {0}) × State
destroyed =
    Databases.destroy_tenant (λ s. s) (λ u i d. u) (λ u. u) sample_config no_faults postgresql acme
      initialized.1

initialized_ok : initialized.0 ≡ ok tt
unfolding Databases.initialize_tenant Databases.initialize_server Databases.create_tables
    validate_database_name validate_schema_name database_name sanitize_identifier
    core_sanitize_identifier or_tenant lead strip collapse mask replace is_word is_alpha
initialized_ok = refl

destroyed_ok : destroyed.0 ≡ ok tt
unfolding Databases.destroy_tenant Databases.destroy_server validate_database_name
    validate_schema_name database_name sanitize_identifier core_sanitize_identifier or_tenant lead
    strip collapse mask replace is_word is_alpha
destroyed_ok = refl

other_name : codes "postgres" ≢ database_name (λ s. s) acme
unfolding database_name
other_name = λ e. absurd (omega (arith, ap {B = ℕ} (λ (s : Text). elim s [ [] ↦ 0 | c ∷ r ↦ c ]) e))

destroy_tenant-initialize_tenant_example :
    (Databases.verify_isolation
        (λ s. s)
        (λ u i d. u)
        (λ u. u)
        sample_config
        no_faults
        postgresql
        acme
        initialized.1
      ≡ true)
    × (Databases.verify_isolation
          (λ s. s)
          (λ u i d. u)
          (λ u. u)
          sample_config
          no_faults
          postgresql
          acme
          destroyed.1
        ≡ false)
    × (contains initialized.1.databases (codes "postgres")
        ≡ contains no_databases.databases (codes "postgres"))
    × (contains destroyed.1.databases (codes "postgres")
        ≡ contains no_databases.databases (codes "postgres"))
destroy_tenant-initialize_tenant_example =
    destroy_tenant-initialize_tenant (λ s. s) (λ u i d. u) (λ u. u) sample_config no_faults
      postgresql tt acme false 7 no_databases (codes "postgres") initialized_ok destroyed_ok
      other_name
