-- ===== src/Isolation/Rls/Sessions.antt =====
-- isolation/rls.py: the session of RLSIsolationProvider. `opens` says whether what it does before the
-- block succeeds, and `first` is the connection object of its first transaction.
use fastapi_tenancy.Prelude.{
  ite, ◌∙◌, ℕ, ◌≡◌, refl, List, [], ◌∷◌, Option, none, some, Bool, true, false, ◌==◌, map, ap₂,
  arith, if◌then◌else◌, Text,
}
use native.Mathlib.Decide.{ℕ_discrete}
use fastapi_tenancy.Core.Types.{Tenant}
use fastapi_tenancy.Core.Exceptions.{isolation}
use fastapi_tenancy.Isolation.Session.{
  Event, begun, ran, ended, Block, Served, Within, served, refused, settings_of, connections_of,
}

-- _set_rls_guc, which listens to one connection object
abbrev pub set_rls_guc : ℕ → Tenant → ℕ → Option Text
set_rls_guc first t c = if c == first then some t.id else none

unfoldable pub get_session : {A : Type 0} → Bool → ℕ → Tenant → Block A → Served A
unfolding settings_of served
get_session opens first t block = elim opens [
  | false ↦ refused isolation true
  | true ↦ served (settings_of (set_rls_guc first t) (some t.id) block.events) block
]

settings_of-connections_of :
    (listener : ℕ → Option Text) (now : Option Text) (c : ℕ) (inside : Bool) (es : List Event)
    → (inside ≡ true → now ≡ listener c)
    → Within inside es
    → settings_of listener now es ≡ map listener (connections_of c es)
unfolding settings_of connections_of
settings_of-connections_of l now c inside [] h w = refl
settings_of-connections_of l now c inside (begun d ∷ es) h w =
    settings_of-connections_of l (l d) d true es (λ e. refl) w
settings_of-connections_of l now c inside (ran ∷ es) h w =
    ap₂ ◌∷◌ (h w.0) (settings_of-connections_of l now c inside es h w.1)
settings_of-connections_of l now c inside (ended ∷ es) h w =
    settings_of-connections_of l none c false es (λ e. cc) w

-- The tenant on one connection object, and none on the others.
abbrev pub own : ℕ → Tenant → ℕ → Option Text
own first t c = ite (ℕ_discrete c first) (some t.id) none

set_rls_guc-own : (first : ℕ) (t : Tenant) (c : ℕ) → set_rls_guc first t c ≡ own first t c
set_rls_guc-own first t c = elim (ℕ_discrete c first) [
  | yes p ↦ ground (arith, p)
  | no n ↦ ground (arith, n)
]

map-own :
    (first : ℕ) (t : Tenant) (cs : List ℕ) → map (set_rls_guc first t) cs ≡ map (own first t) cs
map-own first t [] = refl
map-own first t (c ∷ cs) = ap₂ ◌∷◌ (set_rls_guc-own first t c) (map-own first t cs)

-- Where what the provider does before the block succeeds: a statement of a block meets the tenant's
-- id when it runs on the connection object of the first transaction, and no tenant when it runs on
-- another.
pub get_session-settings :
    {A : Type 0} (first : ℕ) (t : Tenant) (block : Block A)
    → Within true block.events
    → (get_session true first t block).settings
      ≡ map (own first t) (connections_of first block.events)
unfolding get_session served
get_session-settings first t block w =
    settings_of-connections_of (set_rls_guc first t) (some t.id) first true block.events
      (λ e. ground arith) w
    ∙ map-own first t (connections_of first block.events)
