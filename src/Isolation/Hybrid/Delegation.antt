-- ===== src/Isolation/Hybrid/Delegation.antt =====
-- isolation/hybrid.py: the methods of HybridIsolationProvider that hand a call to the provider of the
-- tenant, over the inner providers as implementations of the interface of isolation/base.py. `at` is
-- the inner provider of a class; the two of a configuration have different classes.
pub mod Serves
use fastapi_tenancy.Prelude.{Bool, false}
use fastapi_tenancy.Core.Types.{Tenant}
use fastapi_tenancy.Core.Exceptions.{Result, ok, raise}
use fastapi_tenancy.Isolation.Hybrid.{Provider, HybridIsolationProvider, provider_for}
use fastapi_tenancy.Isolation.Session.{Block, Served, refused}

-- BaseIsolationProvider, with the close of each provider, for the keyword arguments, the queries, the state and the results of blocks
-- in use.
pub record IsolationProvider (Kwargs Query S A : Type 0) : Type 0 where
  pub get_session : Tenant → Block A → S → Served A × S
  pub apply_filters : Query → Tenant → Query
  pub initialize_tenant : Kwargs → Tenant → S → Result (Unit {0}) × S
  pub destroy_tenant : Kwargs → Tenant → S → Result (Unit {0}) × S
  pub verify_isolation : Tenant → S → Result Bool × S
  pub close : S → Result (Unit {0}) × S

-- One call and then the other, unless the first raises.
unfoldable pub and_then :
    {S : Type 0} → Result (Unit {0}) × S → (S → Result (Unit {0}) × S) → Result (Unit {0}) × S
and_then (ok u, s) next = next s
and_then (raise e, s) next = (raise e, s)

module _ {Kwargs Query S A : Type 0} (at : Provider → IsolationProvider Kwargs Query S A)
    (dispose : S → Result (Unit {0}) × S) (p : HybridIsolationProvider) where
  unfoldable pub get_session : Tenant → Block A → S → Served A × S
  get_session t block s = elim (provider_for p t) [
    | raise e ↦ (refused e false, s)
    | ok q ↦ (at q).get_session t block s
  ]

  unfoldable pub apply_filters : Query → Tenant → Result Query
  apply_filters query t = elim (provider_for p t) [
    | raise e ↦ raise e
    | ok q ↦ ok ((at q).apply_filters query t)
  ]

  unfoldable pub initialize_tenant : Kwargs → Tenant → S → Result (Unit {0}) × S
  initialize_tenant metadata t s = elim (provider_for p t) [
    | raise e ↦ (raise e, s)
    | ok q ↦ (at q).initialize_tenant metadata t s
  ]

  unfoldable pub destroy_tenant : Kwargs → Tenant → S → Result (Unit {0}) × S
  destroy_tenant kwargs t s = elim (provider_for p t) [
    | raise e ↦ (raise e, s)
    | ok q ↦ (at q).destroy_tenant kwargs t s
  ]

  unfoldable pub verify_isolation : Tenant → S → Result Bool × S
  verify_isolation t s = elim (provider_for p t) [
    | raise e ↦ (raise e, s)
    | ok q ↦ (at q).verify_isolation t s
  ]

  -- `dispose` is that of the shared engine.
  unfoldable pub close : S → Result (Unit {0}) × S
  unfolding and_then
  close s =
      and_then (and_then ((at p.premium_provider).close s) (at p.standard_provider).close) dispose
