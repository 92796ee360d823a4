-- ===== src/Storage/Redis/Preserved.antt =====
-- storage/redis.py: the invariant, method by method.
use fastapi_tenancy.Prelude.{◌≡◌, ap, ◌∙◌, inl, inr, Text, some, arith, Option-cases}
use fastapi_tenancy.Prelude.Dict.{get}
use fastapi_tenancy.Core.Types.{Tenant}
use fastapi_tenancy.Core.Exceptions.{ok, Result-cases}
use fastapi_tenancy.Storage.Memory as Store
use fastapi_tenancy.Storage.Memory.{MemoryStore}
use fastapi_tenancy.Storage.Memory.Consistent.{IsConsistent}
use fastapi_tenancy.Storage.Memory.Effects.{Write, run, write-raise, write-stores}
use fastapi_tenancy.Storage.Redis.{
  Codec, RedisTenantStore, Moment, id_key, read, get_old_tenant, old_tenant, refreshed, written,
}
use fastapi_tenancy.Storage.Redis.Keys.{id_key_injective, id_key_ne_slug_key}
use fastapi_tenancy.Storage.Redis.Coherent.{
  Decodes, IsCoherent, cache_set-IsCoherent, cache_invalidate-IsCoherent,
}

pub primary-held :
    (k : Text) (t : Tenant) (s : MemoryStore)
    → Store.get_by_id s k ≡ ok t
    → get k s.tenants ≡ some t
unfolding Store.get_by_id
primary-held k t s h = ground arith

-- The methods of the primary store that write one tenant k, which keep the store consistent.
pub record Writes (k : Text) (w : Write) (s : MemoryStore) : Type 0 where
  pub keeps : IsConsistent (run w s).1
  pub names : (t : Tenant) → (run w s).0 ≡ ok t → t.id ≡ k

module _ {B : Type 0} where
  -- A tenant read from the cache is the one that the primary store has under that id.
  pub cached-held :
      (c : Codec B) (m : Moment) (k : Text) (t : Tenant) (r : RedisTenantStore B)
      → IsCoherent c r
      → get_old_tenant c m k r ≡ some t
      → get k r.primary.tenants ≡ some t
  unfolding get_old_tenant read
  cached-held c m k t r v h = elim (Option-cases (get (id_key r.prefix k) r.entries)) [
    | inl e ↦ ground (arith, e)
    | inr (x, e) ↦
        let (u, decodes, has, named) = v.entry (id_key r.prefix k) x e in
        elim named [
          | inl p ↦ ground (arith, e, decodes, has, id_key_injective r.prefix k u.id p)
          | inr p ↦ absurd (id_key_ne_slug_key r.prefix k u.identifier p)
        ]
  ]

  pub old_tenant-held :
      (c : Codec B) (m : Moment) (k : Text) (t : Tenant) (r : RedisTenantStore B)
      → IsCoherent c r
      → old_tenant c m k r ≡ ok t
      → get k r.primary.tenants ≡ some t
  unfolding old_tenant
  old_tenant-held c m k t r v h = elim (Option-cases (get_old_tenant c m k r)) [
    | inl e ↦ primary-held k t r.primary (ground (arith, e, h))
    | inr (u, e) ↦ cached-held c m k t r v (ground (arith, e, h))
  ]

  -- A coherent cache stays so where the primary store keeps every tenant.
  pub moved :
      (c : Codec B) (s : MemoryStore) (r : RedisTenantStore B)
      → IsCoherent c r
      → IsConsistent s
      → ((j : Text) (t : Tenant) → get j r.primary.tenants ≡ some t → get j s.tenants ≡ some t)
      → IsCoherent c (record r { primary = s })
  moved c s r v cons keeps = record {
    consistent = cons;
    entry = λ key e h.
        let (u, decodes, has, named) = v.entry key e h in (u, decodes, keeps u.id u has, named);
  }

  refreshed-IsCoherent :
      (c : Codec B) (m : Moment) (k : Text) (old : Tenant) (w : Write) (r : RedisTenantStore B)
      → Decodes c
      → IsCoherent c r
      → Writes k w r.primary
      → get k r.primary.tenants ≡ some old
      → IsCoherent c (refreshed c m old (run w r.primary) r).1
  unfolding refreshed
  refreshed-IsCoherent c m k old w r d v ws held =
      let s = (run w r.primary).1 in
      let same : old.id ≡ k = v.consistent.under_id k old held in
      elim (Result-cases (run w r.primary).0) [
        | inr (x, f) ↦
            rw (f, refreshed) (moved c s r v ws.keeps (λ j t h. rw (write-raise w r.primary x f) h))
        | inl (t, f) ↦
            let stored = λ (j : Text). write-stores w r.primary t j v.consistent f in
            let named = ws.names t f in
            rw (f, refreshed)
              (cache_set-IsCoherent c m t _ d (ground (arith, stored t.id)) (
                cache_invalidate-IsCoherent c old s r v ws.keeps
                  (ap (λ j. get j r.primary.tenants) same ∙ held)
                  (λ j n. ground (arith, stored j, same, named, n))))
      ]

  pub written-IsCoherent :
      (c : Codec B) (m : Moment) (k : Text) (w : Write) (r : RedisTenantStore B)
      → Decodes c
      → IsCoherent c r
      → Writes k w r.primary
      → IsCoherent c (written c m k (run w) r).1
  unfolding written
  written-IsCoherent c m k w r d v ws = elim (Result-cases (old_tenant c m k r)) [
    | inr (x, f) ↦ rw (f, written) v
    | inl (old, f) ↦
        rw (f, written)
          (refreshed-IsCoherent c m k old w r d v ws (old_tenant-held c m k old r v f))
  ]
