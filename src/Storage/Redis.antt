-- ===== src/Storage/Redis.antt =====
-- storage/redis.py: RedisTenantStore, here in front of the in-memory store. Redis is a dict with the
-- time at which each entry ends, which answers; only the pipeline that caches a tenant may fail. The
-- coding of tenants is a parameter, and so are the times. One call runs after the other.
pub mod Batch
pub mod Filled
pub mod Keys
pub mod Coherent
pub mod Preserved
pub mod Calls
pub mod Transparent
pub mod Maps
pub mod Listed
pub mod Stale
use fastapi_tenancy.Prelude.{
  ℕ, ◌+◌, ◌*◌, Text, codes, starts_with, Option, none, some, List, [], ◌∷◌, ◌++◌, Bool, true, ltb,
  ◌&&◌, keep, length, if◌then◌else◌,
}
use fastapi_tenancy.Prelude.Dict.{Dict, get, put, del}
use fastapi_tenancy.Core.Types.{Tenant, TenantStatus, Json}
use fastapi_tenancy.Core.Exceptions.{Result, ok, raise, value_error}
use fastapi_tenancy.Storage.Memory as Store
use fastapi_tenancy.Storage.Memory.{MemoryStore}

-- model_dump_json and model_validate_json; nothing for a ValidationError.
pub record Codec (B : Type 0) : Type 0 where
  pub serialize : Tenant → B
  pub deserialize : B → Option Tenant

pub record Entry (B : Type 0) : Type 0 where
  pub blob : B
  pub expires_at : ℕ

pub record RedisTenantStore (B : Type 0) : Type 0 where
  pub primary : MemoryStore
  pub entries : Dict (Entry B)
  pub ttl : ℕ
  pub prefix : Text

-- When a call reads and when it writes, and whether the pipeline takes a tenant.
pub record Moment : Type 0 where
  pub now : ℕ
  pub later : ℕ
  pub accepts : Tenant → Bool

abbrev pub second : ℕ
second = 1000000

unfoldable pub id_key : Text → Text → Text
id_key prefix tenant_id = prefix ++ (codes ":id:" ++ tenant_id)

unfoldable pub slug_key : Text → Text → Text
slug_key prefix identifier = prefix ++ (codes ":identifier:" ++ identifier)

-- A corrupt entry raises pydantic's ValidationError here, which is a ValueError.
abbrev pub decoded_or_raise : Option Tenant → Result Tenant
decoded_or_raise none = raise value_error
decoded_or_raise (some t) = ok t

module _ {B : Type 0} where
  -- GET, of an entry that may have ended
  abbrev pub unless_ended : ℕ → Option (Entry B) → Option B
  unless_ended now none = none
  unless_ended now (some e) = if ltb now e.expires_at then some e.blob else none

  unfoldable pub read : ℕ → Text → Dict (Entry B) → Option B
  read now key entries = unless_ended now (get key entries)

  unfoldable pub cache_set : Codec B → Moment → Tenant → RedisTenantStore B → RedisTenantStore B
  unfolding id_key slug_key
  cache_set c m t r =
      let e : Entry B = record { blob = c.serialize t; expires_at = m.later + r.ttl * second } in
      if m.accepts t
      then record r {
        entries = put (slug_key r.prefix t.identifier) e (put (id_key r.prefix t.id) e r.entries);
      }
      else r

  unfoldable pub cache_invalidate : Text → Text → RedisTenantStore B → RedisTenantStore B
  unfolding id_key slug_key
  cache_invalidate tenant_id identifier r = record r {
    entries = del (slug_key r.prefix identifier) (del (id_key r.prefix tenant_id) r.entries);
  }

  -- The tenant in an entry that GET returned, a corrupt one being a miss.
  abbrev pub decoded : Codec B → Option B → Option Tenant
  decoded c none = none
  decoded c (some blob) = c.deserialize blob

  unfoldable pub get_old_tenant : Codec B → Moment → Text → RedisTenantStore B → Option Tenant
  unfolding id_key read
  get_old_tenant c m tenant_id r = decoded c (read m.now (id_key r.prefix tenant_id) r.entries)

  -- After a miss: what the primary store answers, cached.
  unfoldable pub fetched :
      Codec B → Moment → Result Tenant → RedisTenantStore B → Result Tenant × RedisTenantStore B
  unfolding cache_set
  fetched c m answer r = elim answer [ raise e ↦ (raise e, r) | ok t ↦ (ok t, cache_set c m t r) ]

  unfoldable pub get_by_id :
      Codec B → Moment → Text → RedisTenantStore B → Result Tenant × RedisTenantStore B
  unfolding get_old_tenant fetched
  get_by_id c m tenant_id r = elim (get_old_tenant c m tenant_id r) [
    | some t ↦ (ok t, r)
    | none ↦ fetched c m (Store.get_by_id r.primary tenant_id) r
  ]

  unfoldable pub get_by_identifier :
      Codec B → Moment → Text → RedisTenantStore B → Result Tenant × RedisTenantStore B
  unfolding slug_key read fetched
  get_by_identifier c m identifier r = elim (read m.now (slug_key r.prefix identifier) r.entries) [
    | some blob ↦ (decoded_or_raise (c.deserialize blob), r)
    | none ↦ fetched c m (Store.get_by_identifier r.primary identifier) r
  ]

  unfoldable pub exists : Moment → Text → RedisTenantStore B → Bool
  unfolding id_key read
  exists m tenant_id r = elim (read m.now (id_key r.prefix tenant_id) r.entries) [
    | some _ ↦ true
    | none ↦ Store.exists r.primary tenant_id
  ]

  unfoldable pub create :
      Codec B → Moment → Tenant → RedisTenantStore B → Result Tenant × RedisTenantStore B
  unfolding fetched
  create c m t r =
      let (answer, s) = Store.create t r.primary in fetched c m answer (record r { primary = s })

  -- The tenant before a write: from the cache, or else from the primary store.
  unfoldable pub old_tenant : Codec B → Moment → Text → RedisTenantStore B → Result Tenant
  unfolding get_old_tenant
  old_tenant c m tenant_id r = elim (get_old_tenant c m tenant_id r) [
    | some t ↦ ok t
    | none ↦ Store.get_by_id r.primary tenant_id
  ]

  -- The end of update, set_status and update_metadata.
  unfoldable pub refreshed :
      Codec B
      → Moment
      → Tenant
      → Result Tenant × MemoryStore
      → RedisTenantStore B
      → Result Tenant × RedisTenantStore B
  unfolding cache_invalidate cache_set
  refreshed c m old outcome r =
      let r' = record r { primary = outcome.1 } in
      elim outcome.0 [
        | raise e ↦ (raise e, r')
        | ok t ↦ (ok t, cache_set c m t (cache_invalidate old.id old.identifier r'))
      ]

  -- update, set_status and update_metadata: `write` is the method of the primary store, on a tenant of
  -- that id.
  unfoldable pub written :
      Codec B
      → Moment
      → Text
      → (MemoryStore → Result Tenant × MemoryStore)
      → RedisTenantStore B
      → Result Tenant × RedisTenantStore B
  unfolding old_tenant refreshed
  written c m tenant_id write r = elim (old_tenant c m tenant_id r) [
    | raise e ↦ (raise e, r)
    | ok old ↦ refreshed c m old (write r.primary) r
  ]

  unfoldable pub update :
      Codec B → Moment → ℕ → Tenant → RedisTenantStore B → Result Tenant × RedisTenantStore B
  unfolding written
  update c m stamp t r = written c m t.id (Store.update stamp t) r

  unfoldable pub set_status :
      Codec B
      → Moment
      → ℕ
      → Text
      → TenantStatus
      → RedisTenantStore B
      → Result Tenant × RedisTenantStore B
  unfolding written
  set_status c m stamp tenant_id status r =
      written c m tenant_id (Store.set_status stamp tenant_id status) r

  unfoldable pub update_metadata :
      Codec B
      → Moment
      → ℕ
      → Text
      → Dict Json
      → RedisTenantStore B
      → Result Tenant × RedisTenantStore B
  unfolding written
  update_metadata c m stamp tenant_id metadata r =
      written c m tenant_id (Store.update_metadata stamp tenant_id metadata) r

  unfoldable pub delete :
      Codec B → Moment → Text → RedisTenantStore B → Result (Unit {0}) × RedisTenantStore B
  unfolding old_tenant cache_invalidate
  delete c m tenant_id r = elim (old_tenant c m tenant_id r) [
    | raise e ↦ (raise e, r)
    | ok old ↦
        let (answer, s) = Store.delete tenant_id r.primary in
        let r' = record r { primary = s } in
        elim answer [
          | raise e ↦ (raise e, r')
          | ok u ↦ (ok u, cache_invalidate old.id old.identifier r')
        ]
  ]
