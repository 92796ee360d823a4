-- ===== src/Storage/Redis/Filled.antt =====
-- storage/redis.py: the entries that get_by_ids writes.
use fastapi_tenancy.Prelude.{
  ◌≡◌, refl, ap, ◌∙◌, Text, List, [], ◌∷◌, some, Bool-cases, Option-cases, inl, inr,
}
use fastapi_tenancy.Prelude.Dict.{get}
use fastapi_tenancy.Core.Types.{Tenant}
use fastapi_tenancy.Storage.Memory as Store
use fastapi_tenancy.Storage.Memory.{MemoryStore}
use fastapi_tenancy.Storage.Redis.{Codec, RedisTenantStore, Moment, cache_set}
use fastapi_tenancy.Storage.Redis.Batch.{split_hits, cache_all, get_by_ids}
use fastapi_tenancy.Storage.Redis.Coherent.{Decodes, IsCoherent, cache_set-IsCoherent}

module _ {B : Type 0} (c : Codec B) (m : Moment) (d : Decodes c) where
  cache_set-primary :
      (t : Tenant) (r : RedisTenantStore B) → (cache_set c m t r).primary ≡ r.primary
  unfolding cache_set
  cache_set-primary t r = elim (Bool-cases (m.accepts t)) [
    | inl a ↦ rw (a, cache_set) refl
    | inr a ↦ rw (a, cache_set) refl
  ]

  -- What the primary store has is cached.
  filled-IsCoherent :
      (ids : List Text) (s : MemoryStore) (r : RedisTenantStore B)
      → r.primary ≡ s
      → IsCoherent c r
      → IsCoherent c (cache_all c m (Store.get_by_ids s ids) r)
  unfolding cache_all Store.get_by_ids
  filled-IsCoherent [] s r e v = v
  filled-IsCoherent (k ∷ ids) s r e v = elim (Option-cases (get k s.tenants)) [
    | inl f ↦ rw (f, Store.get_by_ids, cache_all) (filled-IsCoherent ids s r e v)
    | inr (t, f) ↦
        let there : get k r.primary.tenants ≡ some t = ap (λ s. get k s.tenants) e ∙ f in
        let held : get t.id r.primary.tenants ≡ some t =
          ap (λ j. get j r.primary.tenants) (v.consistent.under_id k t there) ∙ there in
        rw (f, Store.get_by_ids, cache_all)
          (filled-IsCoherent ids s (cache_set c m t r) (cache_set-primary t r ∙ e)
            (cache_set-IsCoherent c m t r d held v))
  ]

  pub get_by_ids-IsCoherent :
      (ids : List Text) (r : RedisTenantStore B)
      → IsCoherent c r
      → IsCoherent c (get_by_ids c m ids r).1
  unfolding get_by_ids
  get_by_ids-IsCoherent ids r v = filled-IsCoherent (split_hits c m ids r []).1 r.primary r refl v
