-- ===== src/Storage/Redis/Coherent.antt =====
-- storage/redis.py: the invariant of the entries against the primary store.
use fastapi_tenancy.Prelude.{
  ◌≡◌, ◌≢◌, sym, ap, ◌∙◌, ◌⊎◌, inl, inr, Text, text_dec, some, arith, Bool-cases, ◌+◌, ◌*◌,
}
use fastapi_tenancy.Prelude.Dict.{get}
use fastapi_tenancy.Core.Types.{Tenant}
use fastapi_tenancy.Storage.Memory.{MemoryStore}
use fastapi_tenancy.Storage.Memory.Consistent.{IsConsistent}
use fastapi_tenancy.Storage.Redis.{
  Codec, Entry, RedisTenantStore, Moment, id_key, slug_key, cache_set, cache_invalidate, second,
}
use fastapi_tenancy.Storage.Redis.Keys.{put-put-cases, del-del-some}

module _ {B : Type 0} where
  -- The documented behaviour of Pydantic's JSON.
  abbrev pub Decodes : Codec B → Type 0
  Decodes c = (t : Tenant) → c.deserialize (c.serialize t) ≡ some t

  -- An entry holds a tenant as the primary store has it, and stands under one of its keys.
  abbrev pub IsTrue : Codec B → RedisTenantStore B → Text → Entry B → Type 0
  IsTrue c r key e =
      (t : Tenant) × (c.deserialize e.blob ≡ some t)
      × (get t.id r.primary.tenants ≡ some t)
      × ((key ≡ id_key r.prefix t.id) ⊎ (key ≡ slug_key r.prefix t.identifier))

  pub record IsCoherent (c : Codec B) (r : RedisTenantStore B) : Type 0 where
    pub consistent : IsConsistent r.primary
    pub entry : (key : Text) (e : Entry B) → get key r.entries ≡ some e → IsTrue c r key e

  set-IsTrue :
      (c : Codec B) (m : Moment) (t : Tenant) (r : RedisTenantStore B)
      → Decodes c
      → get t.id r.primary.tenants ≡ some t
      → IsCoherent c r
      → (key : Text) (e : Entry B)
      → (((key ≡ id_key r.prefix t.id) ⊎ (key ≡ slug_key r.prefix t.identifier))
          × (e ≡ record { blob = c.serialize t; expires_at = m.later + r.ttl * second }))
        ⊎ (get key r.entries ≡ some e)
      → IsTrue c r key e
  set-IsTrue c m t r d held v key e (inr old) = v.entry key e old
  set-IsTrue c m t r d held v key e (inl (named, new)) =
      (t, rw (ap (λ x. x.blob) new) (d t), held, named)

  pub cache_set-IsCoherent :
      (c : Codec B) (m : Moment) (t : Tenant) (r : RedisTenantStore B)
      → Decodes c
      → get t.id r.primary.tenants ≡ some t
      → IsCoherent c r
      → IsCoherent c (cache_set c m t r)
  unfolding cache_set
  cache_set-IsCoherent c m t r d held v = elim (Bool-cases (m.accepts t)) [
    | inr a ↦ rw (a, cache_set) v
    | inl a ↦
        rw (a, cache_set)
          (record {
            consistent = v.consistent;
            entry = λ key e h.
                set-IsTrue c m t r d held v key e (put-put-cases key _ _ _ e r.entries h);
          })
  ]

  -- After a change of one tenant alone, and the removal of its keys.
  pub cache_invalidate-IsCoherent :
      (c : Codec B) (old : Tenant) (s : MemoryStore) (r : RedisTenantStore B)
      → IsCoherent c r
      → IsConsistent s
      → get old.id r.primary.tenants ≡ some old
      → ((j : Text) → old.id ≢ j → get j s.tenants ≡ get j r.primary.tenants)
      → IsCoherent c (cache_invalidate old.id old.identifier (record r { primary = s }))
  unfolding cache_invalidate
  cache_invalidate-IsCoherent c old s r v cons held others = record {
    consistent = cons;
    entry = λ key e h.
        let (not_slug, not_id, there) = del-del-some key _ _ e r.entries h in
        let (u, decodes, has, named) = v.entry key e there in
        elim (text_dec old.id u.id) [
          | yes same ↦
              let is_old : u ≡ old = ground (arith, has, held) in
              absurd (elim named [
                | inl p ↦ not_id (p ∙ ap (id_key r.prefix) (sym same))
                | inr p ↦ not_slug (p ∙ ap (λ x. slug_key r.prefix x.identifier) is_old)
              ])
          | no n ↦ (u, decodes, others u.id n ∙ has, named)
        ];
  }
