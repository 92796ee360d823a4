-- ===== src/Isolation/Hybrid/Routing.antt =====
-- isolation/hybrid.py: the provider of a tenant against the strategy that is meant for it.
use fastapi_tenancy.Prelude.{
  ◌⊎◌, Bool-cases, Text, ◌≢◌, ◌↔◌, Option-cases, inl, inr, ◌≡◌, refl, none, some, true, arith,
  if◌then◌else◌,
}
use fastapi_tenancy.Core.Types.{Tenant, IsolationStrategy, schema, database, rls, hybrid}
use fastapi_tenancy.Core.Config.{
  TenancyConfig, strategy_eq, is_premium_tenant, get_isolation_strategy_for_tenant,
}
use fastapi_tenancy.Utils.DbCompat.{DbDialect}
use fastapi_tenancy.Core.Exceptions.{ok, raise, isolation}
use fastapi_tenancy.Isolation.Hybrid.{
  Provider, schema_provider, database_provider, rls_provider, HybridIsolationProvider,
  build_provider, build_inner, init, Platform, dialect_of, override_for, provider_for,
}

abbrev pub strategy_of : Provider → IsolationStrategy
strategy_of schema_provider = schema
strategy_of database_provider = database
strategy_of rls_provider = rls

-- The strategy that is meant: the tenant's own, else that of its tier.
abbrev pub intended : TenancyConfig → Tenant → IsolationStrategy
intended config tenant = elim tenant.isolation_strategy [
  | some override ↦ override
  | none ↦
      if is_premium_tenant config tenant.id
      then config.premium_isolation_strategy
      else config.standard_isolation_strategy
]

strategy_eq-lem : (a b : IsolationStrategy) → strategy_eq a b ≡ true → a ≡ b
unfolding strategy_eq
strategy_eq-lem schema schema h = refl
strategy_eq-lem database database h = refl
strategy_eq-lem rls rls h = refl
strategy_eq-lem hybrid hybrid h = refl
strategy_eq-lem _ _ h = cc

pub strategy_eq-of_eq : (a b : IsolationStrategy) → a ≡ b → strategy_eq a b ≡ true
unfolding strategy_eq
strategy_eq-of_eq schema schema h = refl
strategy_eq-of_eq database database h = refl
strategy_eq-of_eq rls rls h = refl
strategy_eq-of_eq hybrid hybrid h = refl
strategy_eq-of_eq _ _ h = cc

strategy_of-build :
    (d : DbDialect) (s : IsolationStrategy) (q : Provider)
    → build_provider d s ≡ ok q
    → strategy_of q ≡ s
unfolding build_provider
strategy_of-build d schema q h = ground arith
strategy_of-build d database q h = ground arith
strategy_of-build d rls q h = ground arith
strategy_of-build d hybrid q h = cc

-- What a provider that was built holds.
pub record IsBuilt (config : TenancyConfig) (p : HybridIsolationProvider) : Type 0 where
  pub config_kept : p.config ≡ config
  pub is_hybrid : config.isolation_strategy ≡ hybrid
  pub premium : strategy_of p.premium_provider ≡ config.premium_isolation_strategy
  pub standard : strategy_of p.standard_provider ≡ config.standard_isolation_strategy

pub init-IsBuilt :
    (platform : Platform) (config : TenancyConfig) (p : HybridIsolationProvider)
    → init platform config ≡ ok p
    → IsBuilt config p
unfolding init build_inner
init-IsBuilt platform config p h = ground (
  arith,
  strategy_eq-lem config.isolation_strategy hybrid,
  strategy_of-build (dialect_of platform config) config.premium_isolation_strategy
      p.premium_provider,
  strategy_of-build (dialect_of platform config) config.standard_isolation_strategy
      p.standard_provider,
)

override_for-intended :
    (config : TenancyConfig) (p : HybridIsolationProvider) (s : IsolationStrategy) (q : Provider)
    → IsBuilt config p
    → override_for p s ≡ ok q
    → strategy_of q ≡ s
unfolding override_for
override_for-intended config p s q b k = ground (
  arith,
  strategy_eq-lem s p.config.premium_isolation_strategy,
  strategy_eq-lem s p.config.standard_isolation_strategy,
)

-- Which of the two providers the tier selects.
tier_provider :
    (config : TenancyConfig) (id : Text)
    → config.isolation_strategy ≡ hybrid
    → get_isolation_strategy_for_tenant config id ≡ (
        if is_premium_tenant config id
        then config.premium_isolation_strategy
        else config.standard_isolation_strategy)
unfolding get_isolation_strategy_for_tenant
tier_provider config id h = rw (strategy_eq-of_eq config.isolation_strategy hybrid h)

-- The provider that serves a tenant implements the tenant's own strategy where one is set, and
-- otherwise that of the tenant's tier.
pub provider_for-intended :
    (platform : Platform) (config : TenancyConfig) (p : HybridIsolationProvider) (t : Tenant)
    (q : Provider)
    → init platform config ≡ ok p
    → provider_for p t ≡ ok q
    → strategy_of q ≡ intended config t
unfolding provider_for
provider_for-intended platform config p t q h k =
    let b = init-IsBuilt platform config p h in
    elim (Option-cases t.isolation_strategy) [
      | inr (s, e) ↦ rw e (override_for-intended config p s q b (rw e at k))
      | inl e ↦
          let s : IsolationStrategy = get_isolation_strategy_for_tenant p.config t.id in
          ground (
            arith,
            e,
            tier_provider config t.id b.is_hybrid,
            strategy_eq-lem s p.config.premium_isolation_strategy,
            strategy_eq-of_eq s p.config.premium_isolation_strategy,
          )
    ]

module _ (p : HybridIsolationProvider) (s : IsolationStrategy) where
  override_for-raises :
      (override_for p s ≡ raise isolation)
      ↔ ((s ≢ p.config.premium_isolation_strategy) × (s ≢ p.config.standard_isolation_strategy))
  unfolding override_for
  override_for-raises = ground (
    arith,
    strategy_eq-lem s p.config.premium_isolation_strategy,
    strategy_eq-of_eq s p.config.premium_isolation_strategy,
    strategy_eq-lem s p.config.standard_isolation_strategy,
    strategy_eq-of_eq s p.config.standard_isolation_strategy,
  )

  override_for-cases :
      (override_for p s ≡ raise isolation) ⊎ ((q : Provider) × (override_for p s ≡ ok q))
  unfolding override_for
  override_for-cases = elim (Bool-cases (strategy_eq s p.config.premium_isolation_strategy)) [
    | inl e ↦ inr (p.premium_provider, ground (arith, e))
    | inr e ↦ elim (Bool-cases (strategy_eq s p.config.standard_isolation_strategy)) [
      | inl f ↦ inr (p.standard_provider, ground (arith, e, f))
      | inr f ↦ inl (ground (arith, e, f))
    ]
  ]

-- A tenant is refused, with an isolation error, exactly when it has a strategy of its own that is
-- neither of the two configured ones. Every other tenant is served.
pub provider_for-raises :
    (p : HybridIsolationProvider) (t : Tenant)
    → ((provider_for p t ≡ raise isolation) ↔ (
        (s : IsolationStrategy) × (t.isolation_strategy ≡ some s)
        × (s ≢ p.config.premium_isolation_strategy)
        × (s ≢ p.config.standard_isolation_strategy)))
      × ((provider_for p t ≡ raise isolation) ⊎ ((q : Provider) × (provider_for p t ≡ ok q)))
unfolding provider_for
provider_for-raises p t = elim (Option-cases t.isolation_strategy) [
  | inl e ↦ rw (e, provider_for) ((λ h. cc, λ n. cc), inr (_, refl))
  | inr (s, e) ↦
      rw (e, provider_for)
        (
          (
            λ h. let (x, y) = (override_for-raises p s).0 h in (s, refl, x, y),
            λ n. let (u, f, x, y) = n in ground (arith, override_for-raises p s, f),
          ),
          override_for-cases p s,
        )
]
