-- ===== src/Tests/CoreTests.antt =====
-- The context, the configuration, the validators, the sanitiser and the isolation providers.
use fastapi_tenancy.Prelude.{arith, ◌≡◌, ◌++◌, refl, text_dec, contains, codes, none, [], ◌∷◌, true}
use fastapi_tenancy.Prelude.Dict as Dict
use fastapi_tenancy.Core.Types.{Tenant, null}
use fastapi_tenancy.Core.Exceptions.{ok, isolation}
use fastapi_tenancy.Core.Config.{get_schema_name, strategy_eq, get_isolation_strategy_for_tenant}
use fastapi_tenancy.Core.Context.{Context}
use fastapi_tenancy.Core.Context.Scopes.{Action, Actions, done, then_do}
use fastapi_tenancy.Utils.Chars.{is_lower, is_alnum, is_word, is_slug_char, replace}
use fastapi_tenancy.Utils.Validation.{validate_schema_name, validate_tenant_identifier}
use fastapi_tenancy.Utils.Validation.Grammar.{chomp, is_slug, validate_tenant_identifier-eq}
use fastapi_tenancy.Utils.Sanitize.{core_sanitize_identifier}
use fastapi_tenancy.Utils.Sanitize.Safe.{sanitize-IsSafe}
use fastapi_tenancy.Isolation.Engines.{LruEngineCache, Acquired, get_engine}
use fastapi_tenancy.Isolation.Engines.Leaks.{IsBounded, IsKept, get_engine-IsKept}
use fastapi_tenancy.Isolation.Hybrid.{
  schema_provider, rls_provider, HybridIsolationProvider, Platform, build_inner, init,
  build_provider, provider_for,
}
use fastapi_tenancy.Isolation.Hybrid.{Provider}
use fastapi_tenancy.Utils.DbCompat.{
  supports_native_rls, detect_dialect, scheme_re, scheme_rest, dialect_map,
}
use fastapi_tenancy.Isolation.Hybrid.Routing.{strategy_of, intended}
use fastapi_tenancy.Isolation.Hybrid.Delegation.{IsolationProvider}
use fastapi_tenancy.Isolation.Hybrid.Delegation.Serves.{Delegates, Refuses, hybrid_serves}
use fastapi_tenancy.Isolation.Session.{served}
use fastapi_tenancy.Core.Types.{IsolationStrategy}
use fastapi_tenancy.Core.Exceptions.{Result}
use fastapi_tenancy.Prelude.{starts_with, ℕ, Text, List, ◌⊎◌, ◌≢◌, some}
use fastapi_tenancy.Tests.Samples.{acme, globex, sample_config}

abbrev nowhere : Context
nowhere = record { tenant = none; metadata = none }

-- A block with a nested scope, and one that raises in it.
abbrev nested : Actions
nested =
    then_do (Action.scoped globex (then_do (Action.sets_metadata (codes "user") null) done)) done

abbrev failing : Actions
failing = then_do (Action.scoped globex (then_do (Action.raises isolation) done)) done

abbrev providers : HybridIsolationProvider
providers = record {
  config = sample_config;
  premium_provider = schema_provider;
  standard_provider = rls_provider;
}

-- Every engine can be created.
abbrev postgres : Platform
postgres = record { lower = λ s. s; trim = λ s. s; engine_error = λ _. none }

providers_built : init postgres sample_config ≡ ok providers
unfolding init strategy_eq build_inner build_provider detect_dialect scheme_re scheme_rest
    dialect_map supports_native_rls is_lower Dict.get text_dec starts_with is_alnum
providers_built = refl

acme_provider : provider_for providers acme ≡ ok schema_provider
unfolding provider_for get_isolation_strategy_for_tenant strategy_eq text_dec contains
acme_provider = refl

accepts_slug : validate_tenant_identifier (codes "acme-corp") ≡ true
unfolding validate_tenant_identifier is_lower is_slug_char
accepts_slug = refl

accepts_newline : validate_schema_name (codes "abc" ++ 10 ∷ []) ≡ true
unfolding validate_schema_name is_lower is_word
accepts_newline = refl

acme_schema : get_schema_name sample_config (codes "acme-corp") ≡ ok (codes "tenant_acme_corp")
unfolding get_schema_name validate_tenant_identifier is_lower is_slug_char replace
acme_schema = refl

validate_tenant_identifier-eq_example :
    validate_tenant_identifier (codes "acme-") ≡ is_slug (chomp (codes "acme-"))
validate_tenant_identifier-eq_example = validate_tenant_identifier-eq (codes "acme-")

sanitize-IsSafe_example :
    validate_schema_name (core_sanitize_identifier (λ s. s) (codes "2024 --co.")) ≡ true
sanitize-IsSafe_example = sanitize-IsSafe (λ s. s) (codes "2024 --co.")

abbrev doubled : Tenant
doubled = record acme { id = codes "t3"; identifier = codes "acme--corp" }

-- A full cache for one engine.
abbrev one_engine : LruEngineCache
one_engine = record { cache = (codes "t1", 7) ∷ []; max_size = 1 }

one_engine-IsBounded : IsBounded one_engine
unfolding Dict.get
one_engine-IsBounded = record { dict = (refl, tt); positive = omega arith; bounded = omega arith }

get_engine-IsKept_example :
    (r : Acquired) × (get_engine (codes "t2") 8 one_engine ≡ ok r)
    × IsKept (codes "t2") one_engine r
get_engine-IsKept_example = get_engine-IsKept (codes "t2") 8 one_engine one_engine-IsBounded

-- Inner providers that write down who is called, and for which tenant.
abbrev journal : Provider → IsolationProvider Text Text (List (Provider × Text)) ℕ
journal q = record {
  get_session = λ t b s. (served [] b, (q, t.id) ∷ s);
  apply_filters = λ f t. f ++ t.id;
  initialize_tenant = λ k t s. (ok tt, (q, t.id) ∷ s);
  destroy_tenant = λ k t s. (ok tt, (q, t.id) ∷ s);
  verify_isolation = λ t s. (ok true, s);
  close = λ s. (ok tt, s);
}

abbrev keeps : List (Provider × Text) → Result (Unit {0}) × List (Provider × Text)
keeps s = (ok tt, s)

hybrid_serves_example :
    ((q : Provider) × (strategy_of q ≡ intended sample_config acme)
      × Delegates journal keeps providers acme (journal q))
    ⊎ ((s : IsolationStrategy) × (acme.isolation_strategy ≡ some s)
        × (s ≢ sample_config.premium_isolation_strategy)
        × (s ≢ sample_config.standard_isolation_strategy)
        × Refuses journal keeps providers acme)
hybrid_serves_example =
    hybrid_serves journal keeps postgres sample_config providers acme providers_built
