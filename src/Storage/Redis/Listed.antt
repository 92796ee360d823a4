-- ===== src/Storage/Redis/Listed.antt =====
-- storage/redis.py: get_by_ids against that of the primary store, through the map that it builds.
use mathlib.Core.Path.{subst}
use fastapi_tenancy.Prelude.{
  ◌≡◌, refl, sym, ap, ◌∙◌, inl, inr, Text, none, some, List, [], ◌∷◌, arith, Option-cases,
}
use fastapi_tenancy.Prelude.Dict.{Dict, get, put, get-put}
use fastapi_tenancy.Core.Types.{Tenant}
use fastapi_tenancy.Storage.Memory as Store
use fastapi_tenancy.Storage.Memory.{MemoryStore}
use fastapi_tenancy.Storage.Redis.{Codec, Moment, RedisTenantStore, get_old_tenant}
use fastapi_tenancy.Storage.Redis.Batch.{split_hits, add_all, get_by_ids}
use fastapi_tenancy.Storage.Redis.Coherent.{Decodes, IsCoherent}
use fastapi_tenancy.Storage.Redis.Preserved.{cached-held}
use fastapi_tenancy.Storage.Redis.Transparent.{Reach, Reach-IsCoherent}
use fastapi_tenancy.Storage.Redis.Maps.{
  Sound, Covers, Covered, put-Sound, add_all-Sound, put-Covers, put-there, add_all-Covers,
  add_all-Covered, get_by_ids-AllStored, pick-get_by_ids,
}

module _ {B : Type 0} where
  -- The map that get_by_ids picks from, after the ids.
  abbrev looked_up : Codec B → Moment → RedisTenantStore B → List Text → Dict Tenant → Dict Tenant
  looked_up c m r ids acc =
      let (hits, misses) = split_hits c m ids r acc in
      add_all (Store.get_by_ids r.primary misses) hits

  module _ (c : Codec B) (m : Moment) (r : RedisTenantStore B) (v : IsCoherent c r) where
    split_hits-Sound :
        (ids : List Text) (acc : Dict Tenant)
        → Sound r.primary acc
        → Sound r.primary (split_hits c m ids r acc).0
    unfolding split_hits
    split_hits-Sound [] acc w = w
    split_hits-Sound (k ∷ ids) acc w = elim (Option-cases (get_old_tenant c m k r)) [
      | inl e ↦ rw (e, split_hits) (split_hits-Sound ids acc w)
      | inr (t, e) ↦
          rw (e, split_hits)
            (split_hits-Sound ids (put k t acc)
              (put-Sound r.primary k t acc (cached-held c m k t r v e) w))
    ]

    split_hits-Covers :
        (j : Text) (ids : List Text) (acc : Dict Tenant)
        → Covers r.primary j acc
        → Covers r.primary j (split_hits c m ids r acc).0
    unfolding split_hits
    split_hits-Covers j [] acc w = w
    split_hits-Covers j (k ∷ ids) acc w = elim (Option-cases (get_old_tenant c m k r)) [
      | inl e ↦ rw (e, split_hits) (split_hits-Covers j ids acc w)
      | inr (t, e) ↦
          rw (e, split_hits)
            (split_hits-Covers j ids (put k t acc)
              (put-Covers r.primary j k t acc (cached-held c m k t r v e) w))
    ]

    looked_up-Covers :
        (j : Text) (ids : List Text) (acc : Dict Tenant)
        → Covers r.primary j acc
        → Covers r.primary j (looked_up c m r ids acc)
    looked_up-Covers j ids acc w =
        add_all-Covers r.primary j (Store.get_by_ids r.primary (split_hits c m ids r acc).1)
          (split_hits c m ids r acc).0
          (get_by_ids-AllStored r.primary (split_hits c m ids r acc).1 v.consistent)
          (split_hits-Covers j ids acc w)

    looked_up-missed :
        (k : Text) (ids : List Text) (acc : Dict Tenant) (t : Tenant)
        → get_old_tenant c m k r ≡ none
        → get k r.primary.tenants ≡ some t
        → looked_up c m r (k ∷ ids) acc
          ≡ add_all
              (t ∷ Store.get_by_ids r.primary (split_hits c m ids r acc).1)
              (split_hits c m ids r acc).0
    unfolding split_hits Store.get_by_ids
    looked_up-missed k ids acc t e f = rw (e, f, split_hits, Store.get_by_ids) refl

    looked_up-Covered :
        (ids : List Text) (acc : Dict Tenant) → Covered r.primary ids (looked_up c m r ids acc)
    unfolding split_hits Store.get_by_ids add_all
    looked_up-Covered [] acc = tt
    looked_up-Covered (k ∷ ids) acc =
        let rest = looked_up-Covered ids acc in
        let misses = (split_hits c m ids r acc).1 in
        let hits = (split_hits c m ids r acc).0 in
        let stored = get_by_ids-AllStored r.primary misses v.consistent in
        elim (Option-cases (get_old_tenant c m k r)) [
          | inr (t, e) ↦
              rw (e, split_hits)
                (
                  looked_up-Covers k ids (put k t acc)
                      (put-there r.primary k t acc (cached-held c m k t r v e)),
                  looked_up-Covered ids (put k t acc),
                )
          | inl e ↦ elim (Option-cases (get k r.primary.tenants)) [
            | inl f ↦ rw (e, f, split_hits, Store.get_by_ids) (λ u g. ground (arith, f, g), rest)
            | inr (t, f) ↦
                let same : t.id ≡ k = v.consistent.under_id k t f in
                let held = ap (λ j. get j r.primary.tenants) same ∙ f in
                subst (Covered r.primary (k ∷ ids)) (sym (looked_up-missed k ids acc t e f)) (
                  add_all-Covers r.primary k (Store.get_by_ids r.primary misses) (put t.id t hits)
                      stored (λ u g. ground (arith, get-put k t.id t hits, f, g, same)),
                  add_all-Covered r.primary ids t (Store.get_by_ids r.primary misses) hits
                      (held, stored) rest,
                )
          ]
        ]

  -- After any calls, in whatever order and at any times: get_by_ids returns the list that the primary
  -- store returns, in the order of the ids asked for, however many of them were cached.
  pub get_by_ids-get_by_ids :
      (c : Codec B) (m : Moment) (ids : List Text) (r : RedisTenantStore B)
      → Decodes c
      → Reach c r
      → (get_by_ids c m ids r).0 ≡ Store.get_by_ids r.primary ids
  unfolding get_by_ids get
  get_by_ids-get_by_ids c m ids r d reach =
      let v = Reach-IsCoherent d reach in
      pick-get_by_ids r.primary ids (looked_up c m r ids [])
        (add_all-Sound r.primary (Store.get_by_ids r.primary (split_hits c m ids r []).1)
          (split_hits c m ids r []).0
          (get_by_ids-AllStored r.primary (split_hits c m ids r []).1 v.consistent)
          (split_hits-Sound c m r v ids [] (λ j t h. cc)))
        (looked_up-Covered c m r v ids [])
