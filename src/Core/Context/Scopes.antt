-- ===== src/Core/Context/Scopes.antt =====
-- core/context.py: nested scopes and errors in them.
use fastapi_tenancy.Prelude.{
  ◌≡◌, refl, Text, text_dec, none, some, [], Option-cases, arith, ite, inl, inr,
}
use fastapi_tenancy.Prelude.Dict
use fastapi_tenancy.Prelude.Dict.{get-put}
use fastapi_tenancy.Core.Types.{Tenant, Json}
use fastapi_tenancy.Core.Exceptions.{Result, ok, raise, Error}
use fastapi_tenancy.Core.Context.{
  Context, set, get, reset, clear, reset_all, or_empty, set_metadata, get_metadata, clear_metadata,
  tenant_scope,
}

-- What a task may do with the context when it keeps to the brackets: each `clear` has its
-- `reset_all` and each `set` its `reset`, as in a `finally`.
mutual
  pub data Action : Type 0 where
    sets_metadata : Text → Json → Action
    clears_metadata : Action
    raises : Error → Action
    scoped : Tenant → Actions → Action
    cleared : Actions → Action
    bracketed : Tenant → Actions → Action

  pub data Actions : Type 0 where
    done : Actions
    then_do : Action → Actions → Actions

-- An error ends the actions, but the brackets around it still close.
unfoldable mutual
  pub perform : Action → Context → Result (Unit {0}) × Context
  perform (sets_metadata k v) c = (ok tt, set_metadata k v c)
  perform clears_metadata c = (ok tt, (clear_metadata c).1)
  perform (raises e) c = (raise e, c)
  perform (scoped t actions) c = tenant_scope t (λ _. perform_all actions) c
  perform (cleared actions) c =
      let (tokens, c1) = clear c in
      let (r, c2) = perform_all actions c1 in (r, reset_all tokens.0 tokens.1 c2)
  perform (bracketed t actions) c =
      let (token, c1) = set t c in let (r, c2) = perform_all actions c1 in (r, reset token c2)

  pub perform_all : Actions → Context → Result (Unit {0}) × Context
  perform_all done c = (ok tt, c)
  perform_all (then_do a rest) c =
      let (r, c1) = perform a c in elim r [ raise e ↦ (raise e, c1) | ok _ ↦ perform_all rest c1 ]

mutual
  unfolding perform perform_all set_metadata clear_metadata clear reset_all set reset tenant_scope

  perform-keeps : (a : Action) (c : Context) → (perform a c).1.tenant ≡ c.tenant
  perform-keeps (sets_metadata k v) c = refl
  perform-keeps clears_metadata c = refl
  perform-keeps (raises e) c = refl
  perform-keeps (scoped t actions) c = refl
  perform-keeps (cleared actions) c = refl
  perform-keeps (bracketed t actions) c = refl

  perform_all-keeps :
      (actions : Actions) (c : Context) → (perform_all actions c).1.tenant ≡ c.tenant
  perform_all-keeps done c = refl
  perform_all-keeps (then_do a rest) c =
      ground (arith, perform-keeps a c, perform_all-keeps rest (perform a c).1)

-- At every point of a block, however its scopes nest and whatever they raise, the current tenant is
-- that of the scope around the block; when the scope has ended, the tenant and the metadata are
-- those from before.
pub tenant_scope-nests :
    (t : Tenant) (before after : Actions) (c : Context)
    → (get (perform_all before (record { tenant = some t; metadata = none })).1 ≡ ok t)
      × ((perform (scoped t after) c).1 ≡ c)
unfolding perform tenant_scope set clear_metadata reset get
tenant_scope-nests t before after c =
    (rw (perform_all-keeps before (record { tenant = some t; metadata = none }), get), refl)

-- A value that is set is read back, over any default; every other key reads as before.
pub get_metadata-set_metadata :
    (j k : Text) (v default : Json) (c : Context)
    → get_metadata j default (set_metadata k v c) ≡ ite (text_dec k j) v (get_metadata j default c)
unfolding get_metadata set_metadata Dict.get
get_metadata-set_metadata j k v default c = elim (Option-cases c.metadata) [
  | inl e ↦ rw (e, or_empty, get_metadata) (ground (arith, get-put j k v []))
  | inr (d, e) ↦ rw (e, or_empty, get_metadata) (ground (arith, get-put j k v d))
]
