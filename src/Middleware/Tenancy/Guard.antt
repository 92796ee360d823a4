-- ===== src/Middleware/Tenancy/Guard.antt =====
-- middleware/tenancy.py: the context after a request, the errors that leave it, and the runs of the
-- application.
use fastapi_tenancy.Prelude.{
  ◌≡◌, ◌≢◌, ◌⊎◌, sym, ◌∙◌, List, Text, refl, ℕ, some, Bool, true, false, Option-cases, Bool-cases,
  arith, inl, inr,
}
use fastapi_tenancy.Core.Types.{Tenant, is_active}
use fastapi_tenancy.Core.Exceptions.{ok, Error, Result-cases, value_error, key_error, foreign}
use fastapi_tenancy.Core.Context.{Context, set, reset}
use fastapi_tenancy.Middleware.Tenancy.{
  ScopeType, lifespan, http, websocket, is_excluded, call, Scope, Run, App, Manager,
  on_resolution_error, on_app_error, after_app, serve, admit, handle,
}
use fastapi_tenancy.Middleware.Tenancy.Outcome.{
  Outcome, unresolved, inactive, limited, served, handle-Outcome,
}

-- The errors that are no TenancyError.
unfoldable pub is_foreign : Error → Bool
is_foreign value_error = true
is_foreign key_error = true
is_foreign foreign = true
is_foreign _ = false

module _ (scope : Scope) where
  on_resolution_error-context :
      (c : Context) (e : Error) → (on_resolution_error scope c e).context.tenant ≡ c.tenant
  unfolding on_resolution_error
  on_resolution_error-context c value_error = refl
  on_resolution_error-context c key_error = refl
  on_resolution_error-context c e = refl

  on_resolution_error-raised :
      (c : Context) (f e : Error)
      → (on_resolution_error scope c f).raised ≡ some e
      → is_foreign e ≡ true
  unfolding on_resolution_error is_foreign
  on_resolution_error-raised c value_error e h = ground arith
  on_resolution_error-raised c key_error e h = ground arith
  on_resolution_error-raised c f e h = cc

  on_app_error-raised :
      (window : ℕ) (run : Run) (f e : Error)
      → run.raised ≡ some f
      → (on_app_error window scope run f).raised ≡ some e
      → is_foreign e ≡ true
  unfolding on_app_error is_foreign
  on_app_error-raised window run value_error e r h = ground arith
  on_app_error-raised window run key_error e r h = ground arith
  on_app_error-raised window run f e r h = cc

  after_app-raised :
      (window : ℕ) (run : Run) (e : Error)
      → (after_app window scope run).raised ≡ some e
      → is_foreign e ≡ true
  unfolding after_app
  after_app-raised window run e h = elim (Option-cases run.raised) [
    | inl f ↦ ground (arith, f)
    | inr (x, f) ↦ on_app_error-raised window run x e f (rw (f, after_app) at h)
  ]

module _ {m : Manager} {app : App} {scope : Scope} {c : Context} where
  Outcome-tenant : {run : Run} → Outcome m app scope c run → run.context.tenant ≡ c.tenant
  unfolding serve reset set
  Outcome-tenant (unresolved e _) = on_resolution_error-context scope c e
  Outcome-tenant (inactive t _ _) = refl
  Outcome-tenant (limited t _ _ _ _) = refl
  Outcome-tenant (served t _ _ _) = refl

  Outcome-raised :
      {run : Run} (e : Error)
      → Outcome m app scope c run
      → run.raised ≡ some e
      → is_foreign e ≡ true
  unfolding serve
  Outcome-raised e (unresolved f _) h = on_resolution_error-raised scope c f e h
  Outcome-raised e (inactive t _ _) h = cc
  Outcome-raised e (limited t _ _ _ _) h = cc
  Outcome-raised e (served t _ _ _) h = after_app-raised scope _ _ e h

-- A connection that __call__ hands to _handle: no lifespan, and no excluded path.
abbrev pub IsHandled : List Text → Scope → Type 0
IsHandled excluded scope = (scope.scope_type ≢ lifespan) × (is_excluded excluded scope.path ≡ false)

scope_type-cases : (k : ScopeType) → (k ≡ http) ⊎ (k ≡ websocket) ⊎ (k ≡ lifespan)
scope_type-cases http = inl refl
scope_type-cases websocket = inr (inl refl)
scope_type-cases lifespan = inr (inr refl)

call-handle :
    (m : Manager) (excluded : List Text) (app : App) (scope : Scope) (c : Context)
    → IsHandled excluded scope
    → call m excluded app scope c ≡ handle m app scope c
unfolding call
call-handle m excluded app scope c (n, e) = elim (scope_type-cases scope.scope_type) [
  | inl f ↦ ground (arith, e, f)
  | inr (inl f) ↦ ground (arith, e, f)
  | inr (inr f) ↦ absurd (n f)
]

handle-restores :
    (m : Manager) (app : App) (scope : Scope) (c : Context)
    → (handle m app scope c).context.tenant ≡ c.tenant
handle-restores m app scope c = Outcome-tenant (handle-Outcome m app scope c)

handle-absorbs :
    (m : Manager) (app : App) (scope : Scope) (c : Context) (e : Error)
    → (handle m app scope c).raised ≡ some e
    → is_foreign e ≡ true
handle-absorbs m app scope c e h = Outcome-raised e (handle-Outcome m app scope c) h

handle-guards :
    (m : Manager) (app app' : App) (scope : Scope) (c : Context)
    → ((t : Tenant)
        → m.resolve scope ≡ ok t
        → is_active t ≡ true
        → app (record scope { state_tenant = some t }) (record c { tenant = some t })
          ≡ app' (record scope { state_tenant = some t }) (record c { tenant = some t }))
    → handle m app scope c ≡ handle m app' scope c
unfolding handle admit serve set
handle-guards m app app' scope c agree = elim (Result-cases (m.resolve scope)) [
  | inr (e, f) ↦ ground (arith, f)
  | inl (t, f) ↦ elim (Bool-cases (is_active t)) [
    | inr a ↦ ground (arith, f, a)
    | inl a ↦ ground (arith, f, a, agree t f a)
  ]
]

module _ (m : Manager) (excluded : List Text) (app : App) (scope : Scope) (c : Context)
    (handled : IsHandled excluded scope) where
  -- After a connection that is no lifespan and whose path is not excluded, the current tenant is that
  -- from before, whatever the application did to the context and however it ended.
  pub call-restores : (call m excluded app scope c).context.tenant ≡ c.tenant
  call-restores = rw (call-handle m excluded app scope c handled) (handle-restores m app scope c)

  -- On a connection that is no lifespan and whose path is not excluded, no tenancy error leaves the
  -- middleware, whether the resolver, the rate limiter or the application raises it.
  pub call-absorbs :
      (e : Error) → (call m excluded app scope c).raised ≡ some e → is_foreign e ≡ true
  call-absorbs e h =
      handle-absorbs m app scope c e (rw (call-handle m excluded app scope c handled) at h)

  -- On a connection that is no lifespan and whose path is not excluded, the application runs only for
  -- an active tenant that the resolver returned, with that tenant in its scope and its context: two
  -- applications that agree there make no difference.
  pub call-guards :
      (app' : App)
      → ((t : Tenant)
          → m.resolve scope ≡ ok t
          → is_active t ≡ true
          → app (record scope { state_tenant = some t }) (record c { tenant = some t })
            ≡ app' (record scope { state_tenant = some t }) (record c { tenant = some t }))
      → call m excluded app scope c ≡ call m excluded app' scope c
  call-guards app' agree =
      call-handle m excluded app scope c handled
      ∙ handle-guards m app app' scope c agree
      ∙ sym (call-handle m excluded app' scope c handled)
