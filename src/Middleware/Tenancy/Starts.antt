-- ===== src/Middleware/Tenancy/Starts.antt =====
-- middleware/tenancy.py: how many responses start.
use fastapi_tenancy.Prelude.{
  ◌≡◌, ◌≤◌, refl, ℕ, ◌+◌, Text, Option, List, [], ◌∷◌, ◌++◌, Bool, true, false, Option-cases,
  Bool-cases, ◌⊎◌, arith, inl, inr, if◌then◌else◌,
}
use fastapi_tenancy.Core.Exceptions.{Error, value_error, key_error, foreign}
use fastapi_tenancy.Core.Context.{Context}
use fastapi_tenancy.Middleware.Tenancy.{
  ScopeType, http, websocket, lifespan, Scope, Detail, Message, Run, App, Manager, is_start,
  response_started, send_error, refuse, on_resolution_error, with_error, on_app_error, after_app,
  serve, call, is_excluded,
}
use fastapi_tenancy.Middleware.Tenancy.Outcome.{
  Outcome, unresolved, inactive, limited, served, handle-Outcome,
}

-- How many responses the messages start.
unfoldable pub starts : List Message → ℕ
starts [] = 0
starts (m ∷ ms) = let rest = starts ms in if is_start m then rest + 1 else rest

starts-append : (ms ns : List Message) → starts (ms ++ ns) ≡ starts ms + starts ns
unfolding starts
starts-append [] ns = omega arith
starts-append (m ∷ ms) ns = ground (arith, starts-append ms ns)

starts-none : (ms : List Message) → response_started ms ≡ false → starts ms ≡ 0
unfolding starts response_started
starts-none [] h = refl
starts-none (m ∷ ms) h = ground (arith, starts-none ms)

-- An error response starts one response at most, and none when one has started.
starts-send_error :
    (k : ScopeType) (b : Bool) (status : ℕ) (d : Detail) (r : Option ℕ)
    → starts (send_error k b status d r) ≤ (if b then 0 else 1)
unfolding starts send_error
starts-send_error http true status d r = omega arith
starts-send_error http false status d r = omega arith
starts-send_error websocket b status d r = ground arith
starts-send_error lifespan b status d r = ground arith

module _ (scope : Scope) where
  starts-with_error :
      (run : Run) (status : ℕ) (d : Detail) (r : Option ℕ)
      → starts run.sent ≤ 1
      → starts (with_error scope run status d r).sent ≤ 1
  starts-with_error run status d r h =
      let e = send_error scope.scope_type (response_started run.sent) status d r in
      let bound = starts-send_error scope.scope_type (response_started run.sent) status d r in
      ground (arith, bound, starts-append run.sent e, starts-none run.sent)

  starts-on_app_error :
      (window : ℕ) (run : Run) (e : Error)
      → starts run.sent ≤ 1
      → starts (on_app_error window scope run e).sent ≤ 1
  unfolding on_app_error
  starts-on_app_error window run value_error h = h
  starts-on_app_error window run key_error h = h
  starts-on_app_error window run foreign h = h
  starts-on_app_error window run e h = starts-with_error run _ _ _ h

  starts-refuse :
      (c : Context) (status : ℕ) (d : Detail) (r : Option ℕ)
      → starts (refuse scope c status d r).sent ≤ 1
  starts-refuse c status d r = starts-send_error scope.scope_type false status d r

  starts-after_app :
      (window : ℕ) (run : Run) → starts run.sent ≤ 1 → starts (after_app window scope run).sent ≤ 1
  unfolding after_app
  starts-after_app window run h = elim (Option-cases run.raised) [
    | inl e ↦ rw (e, after_app) h
    | inr (x, e) ↦ rw (e, after_app) (starts-on_app_error window run x h)
  ]

  starts-on_resolution_error :
      (c : Context) (e : Error) → starts (on_resolution_error scope c e).sent ≤ 1
  unfolding on_resolution_error starts
  starts-on_resolution_error c value_error = omega arith
  starts-on_resolution_error c key_error = omega arith
  starts-on_resolution_error c foreign = omega arith
  starts-on_resolution_error c e = starts-refuse c _ _ _

ScopeType-cases : (k : ScopeType) → (k ≡ lifespan) ⊎ ((k ≡ http) ⊎ (k ≡ websocket))
ScopeType-cases http = inr (inl refl)
ScopeType-cases websocket = inr (inr refl)
ScopeType-cases lifespan = inl refl

module _ {m : Manager} {app : App} {scope : Scope} {c : Context} where
  Outcome-starts :
      {run : Run}
      → ((s : Scope) (d : Context) → starts (app s d).sent ≤ 1)
      → Outcome m app scope c run
      → starts run.sent ≤ 1
  unfolding serve
  Outcome-starts h (unresolved e _) = starts-on_resolution_error scope c e
  Outcome-starts h (inactive t _ _) = starts-refuse scope c _ _ _
  Outcome-starts h (limited t _ _ _ _) = starts-refuse scope c _ _ _
  Outcome-starts h (served t _ _ _) = starts-after_app scope _ _ (h _ _)

-- If the application starts one response at most, so does the middleware around it, on every kind
-- of connection, on every path, whatever raises and whenever.
pub call-starts :
    (m : Manager) (excluded : List Text) (app : App) (scope : Scope) (c : Context)
    → ((s : Scope) (d : Context) → starts (app s d).sent ≤ 1)
    → starts (call m excluded app scope c).sent ≤ 1
unfolding call
call-starts m excluded app scope c h =
    let own = h scope c in
    let kept = Outcome-starts h (handle-Outcome m app scope c) in
    elim (ScopeType-cases scope.scope_type) [
      | inl e ↦ rw (e, call) own
      | inr e ↦ elim (Bool-cases (is_excluded excluded scope.path)) [
        | inl x ↦ ground (arith, e, x, own)
        | inr x ↦ ground (arith, e, x, kept)
      ]
    ]
