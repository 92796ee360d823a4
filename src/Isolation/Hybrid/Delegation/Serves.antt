-- ===== src/Isolation/Hybrid/Delegation/Serves.antt =====
-- isolation/hybrid.py: which provider answers the calls for a tenant.
use fastapi_tenancy.Prelude.{◌≡◌, ◌≢◌, ◌⊎◌, false, inl, inr, refl, sym, ap, ◌∙◌, some}
use fastapi_tenancy.Core.Types.{Tenant, IsolationStrategy}
use fastapi_tenancy.Core.Config.{TenancyConfig}
use fastapi_tenancy.Core.Exceptions.{Result, ok, raise, isolation}
use fastapi_tenancy.Isolation.Hybrid.{
  Provider, HybridIsolationProvider, Platform, init, provider_for,
}
use fastapi_tenancy.Isolation.Hybrid.Routing.{
  strategy_of, intended, init-IsBuilt, provider_for-intended, provider_for-raises,
}
use fastapi_tenancy.Isolation.Hybrid.Delegation as Hybrid
use fastapi_tenancy.Isolation.Hybrid.Delegation.{IsolationProvider}
use fastapi_tenancy.Isolation.Session.{Block, refused}

module _ {Kwargs Query S A : Type 0} (at : Provider → IsolationProvider Kwargs Query S A)
    (dispose : S → Result (Unit {0}) × S) (p : HybridIsolationProvider) (t : Tenant) where
  -- Every call for the tenant does what the call of one provider does.
  abbrev pub Delegates : IsolationProvider Kwargs Query S A → Type 0
  Delegates i =
      ((b : Block A) (s : S) → Hybrid.get_session at dispose p t b s ≡ i.get_session t b s)
      × ((f : Query) → Hybrid.apply_filters at dispose p f t ≡ ok (i.apply_filters f t))
      × ((k : Kwargs) (s : S)
          → Hybrid.initialize_tenant at dispose p k t s ≡ i.initialize_tenant k t s)
      × ((k : Kwargs) (s : S) → Hybrid.destroy_tenant at dispose p k t s ≡ i.destroy_tenant k t s)
      × ((s : S) → Hybrid.verify_isolation at dispose p t s ≡ i.verify_isolation t s)

  -- Every call for the tenant raises an isolation error and changes nothing.
  abbrev pub Refuses : Type 0
  Refuses =
      ((b : Block A) (s : S) → Hybrid.get_session at dispose p t b s ≡ (refused isolation false, s))
      × ((f : Query) → Hybrid.apply_filters at dispose p f t ≡ raise isolation)
      × ((k : Kwargs) (s : S) → Hybrid.initialize_tenant at dispose p k t s ≡ (raise isolation, s))
      × ((k : Kwargs) (s : S) → Hybrid.destroy_tenant at dispose p k t s ≡ (raise isolation, s))
      × ((s : S) → Hybrid.verify_isolation at dispose p t s ≡ (raise isolation, s))

  delegates : (q : Provider) → provider_for p t ≡ ok q → Delegates (at q)
  unfolding Hybrid.get_session Hybrid.apply_filters Hybrid.initialize_tenant Hybrid.destroy_tenant
      Hybrid.verify_isolation
  delegates q h = (
    λ b s. rw (h, Hybrid.get_session) refl,
    λ f. rw (h, Hybrid.apply_filters) refl,
    λ k s. rw (h, Hybrid.initialize_tenant) refl,
    λ k s. rw (h, Hybrid.destroy_tenant) refl,
    λ s. rw (h, Hybrid.verify_isolation) refl,
  )

  refuses : provider_for p t ≡ raise isolation → Refuses
  unfolding Hybrid.get_session Hybrid.apply_filters Hybrid.initialize_tenant Hybrid.destroy_tenant
      Hybrid.verify_isolation
  refuses h = (
    λ b s. rw (h, Hybrid.get_session) refl,
    λ f. rw (h, Hybrid.apply_filters) refl,
    λ k s. rw (h, Hybrid.initialize_tenant) refl,
    λ k s. rw (h, Hybrid.destroy_tenant) refl,
    λ s. rw (h, Hybrid.verify_isolation) refl,
  )

-- Of a hybrid provider that was built, all calls for a tenant reach one inner provider, which
-- implements the tenant's own strategy where one is set and otherwise that of its tier; or else the
-- tenant's own strategy is neither of the two configured ones, and every call raises an isolation
-- error and changes nothing.
pub hybrid_serves :
    {Kwargs Query S A : Type 0} (at : Provider → IsolationProvider Kwargs Query S A)
    (dispose : S → Result (Unit {0}) × S) (platform : Platform) (config : TenancyConfig)
    (p : HybridIsolationProvider) (t : Tenant)
    → init platform config ≡ ok p
    → ((q : Provider) × (strategy_of q ≡ intended config t) × Delegates at dispose p t (at q))
      ⊎ ((s : IsolationStrategy) × (t.isolation_strategy ≡ some s)
          × (s ≢ config.premium_isolation_strategy)
          × (s ≢ config.standard_isolation_strategy)
          × Refuses at dispose p t)
hybrid_serves at dispose platform config p t h = elim (provider_for-raises p t).1 [
  | inr (q, e) ↦
      inl (q, provider_for-intended platform config p t q h e, delegates at dispose p t q e)
  | inl e ↦
      let (s, f, x, y) = (provider_for-raises p t).0.0 e in
      let kept : config ≡ p.config = sym (init-IsBuilt platform config p h).config_kept in
      inr (
        s,
        f,
        λ k. x (k ∙ ap (λ c. c.premium_isolation_strategy) kept),
        λ k. y (k ∙ ap (λ c. c.standard_isolation_strategy) kept),
        refuses at dispose p t e,
      )
]
