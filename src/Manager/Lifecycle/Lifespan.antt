-- ===== src/Manager/Lifecycle/Lifespan.antt =====
-- manager.py: how a lifespan ends.
use fastapi_tenancy.Prelude.{
  ◌≡◌, ap, ◌∙◌, List, [], ◌∷◌, ◌++◌, none, some, true, false, inl, inr, arith,
}
use fastapi_tenancy.Core.Config.{TenancyConfig}
use fastapi_tenancy.Core.Exceptions.{Result, ok, raise, Error, Result-cases, ◌>>=◌}
use fastapi_tenancy.Manager.Lifecycle.{
  Step, provider_close, store_close, World, Manager, Action, initialize, close, lifespan, try_step,
  cancel_purge,
}

-- The steps of a close that are tried, the last first.
abbrev pub closing : World → List Step
closing w = elim w.can_close [
  | false ↦ store_close ∷ []
  | true ↦ elim (w.ends provider_close) [
    | none ↦ store_close ∷ provider_close ∷ []
    | some e ↦ provider_close ∷ []
  ]
]

close-tried :
    (w : World) (s : Manager)
    → ((close w s).1.purging ≡ false) × ((close w s).1.tried ≡ closing w ++ s.tried)
unfolding close try_step cancel_purge
close-tried w s = ground arith

lifespan-raise :
    (w : World) (config : TenancyConfig) (block : Action) (s : Manager) (e : Error)
    → (initialize w config s).0 ≡ raise e
    → lifespan w config block s ≡ (raise e, (initialize w config s).1)
unfolding lifespan
lifespan-raise w config block s e h = ground (arith, h)

lifespan-ok :
    (w : World) (config : TenancyConfig) (block : Action) (s : Manager) (u : Unit {0})
    → (initialize w config s).0 ≡ ok u
    → let (r, s1) = block (initialize w config s).1 in
      let (closed, s2) = close w s1 in lifespan w config block s ≡ ((closed >>= λ _. r), s2)
unfolding lifespan
lifespan-ok w config block s u h = ground (arith, h)

-- What a lifespan comes to, by the result of initialize.
abbrev pub Ends : World → TenancyConfig → Action → Manager → Result (Unit {0}) → Type 0
Ends w config block s (raise e) = lifespan w config block s ≡ (raise e, (initialize w config s).1)
Ends w config block s (ok _) =
    let (r, s1) = block (initialize w config s).1 in
    let (closed, s2) = close w s1 in
    ((lifespan w config block s).0 ≡ (closed >>= λ _. r))
    × ((lifespan w config block s).1.purging ≡ false)
    × ((lifespan w config block s).1.tried ≡ closing w ++ s1.tried)

-- Where initialize raises, a lifespan raises the same, without the block and without closing anything.
-- Otherwise, whatever the block gives, the purge task is cancelled and the isolation provider and
-- then the store are closed, the store only if closing the provider raises nothing; it gives what
-- the block gives, unless closing raises.
pub lifespan-Ends :
    (w : World) (config : TenancyConfig) (block : Action) (s : Manager)
    → Ends w config block s (initialize w config s).0
lifespan-Ends w config block s = elim (Result-cases (initialize w config s).0) [
  | inr (e, h) ↦ rw h (lifespan-raise w config block s e h)
  | inl (u, h) ↦
      let s1 = (block (initialize w config s).1).1 in
      let end = lifespan-ok w config block s u h in
      let (cancelled, tried) = close-tried w s1 in
      rw h
        (ap (λ m. m.0) end, ap (λ m. m.1.purging) end ∙ cancelled, ap (λ m. m.1.tried) end ∙ tried)
]
