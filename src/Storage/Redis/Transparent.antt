-- ===== src/Storage/Redis/Transparent.antt =====
-- storage/redis.py: the reads against those of the primary store.
use fastapi_tenancy.Prelude.{ℕ, Text, List, []}
use fastapi_tenancy.Prelude.Dict.{Dict, get}
use fastapi_tenancy.Core.Types.{Tenant, TenantStatus, Json}
use fastapi_tenancy.Storage.Memory as Store
use fastapi_tenancy.Storage.Memory.{MemoryStore, empty}
use fastapi_tenancy.Storage.Memory.Consistent.{IsConsistent}
use fastapi_tenancy.Storage.Memory.Rename.{IsFree}
use fastapi_tenancy.Storage.Redis.{
  Codec, RedisTenantStore, Moment, get_by_id, get_by_identifier, create, update, set_status,
  update_metadata, delete,
}
use fastapi_tenancy.Storage.Redis.Batch.{get_by_ids}
use fastapi_tenancy.Storage.Redis.Filled.{get_by_ids-IsCoherent}
use fastapi_tenancy.Storage.Redis.Coherent.{Decodes, IsCoherent}
use fastapi_tenancy.Storage.Redis.Calls.{
  create-IsCoherent, update-IsCoherent, set_status-IsCoherent, update_metadata-IsCoherent,
  delete-IsCoherent, get_by_id-IsCoherent, get_by_identifier-IsCoherent,
}

module _ {B : Type 0} where
  -- One call. An update must not take the identifier of another tenant.
  pub data Call (c : Codec B) (r : RedisTenantStore B) : RedisTenantStore B → Type 0 where
    gets_by_id : (m : Moment) (k : Text) → Call c r (get_by_id c m k r).1
    gets_by_identifier : (m : Moment) (i : Text) → Call c r (get_by_identifier c m i r).1
    gets_by_ids : (m : Moment) (ids : List Text) → Call c r (get_by_ids c m ids r).1
    creates : (m : Moment) (t : Tenant) → Call c r (create c m t r).1
    updates :
        (m : Moment) (stamp : ℕ) (t : Tenant)
        → IsFree t r.primary
        → Call c r (update c m stamp t r).1
    sets_status :
        (m : Moment) (stamp : ℕ) (k : Text) (st : TenantStatus)
        → Call c r (set_status c m stamp k st r).1
    updates_metadata :
        (m : Moment) (stamp : ℕ) (k : Text) (metadata : Dict Json)
        → Call c r (update_metadata c m stamp k metadata r).1
    deletes : (m : Moment) (k : Text) → Call c r (delete c m k r).1

  -- From an empty cache in front of a consistent store.
  pub data Reach (c : Codec B) : RedisTenantStore B → Type 0 where
    start :
        (s : MemoryStore) (ttl : ℕ) (prefix : Text)
        → IsConsistent s
        → Reach c (record { primary = s; entries = []; ttl = ttl; prefix = prefix })
    next : {r q : RedisTenantStore B} → Reach c r → Call c r q → Reach c q

  Call-IsCoherent :
      {c : Codec B} {r q : RedisTenantStore B}
      → Decodes c
      → Call c r q
      → IsCoherent c r
      → IsCoherent c q
  Call-IsCoherent {c} {r} d (gets_by_id m k) v = get_by_id-IsCoherent c m r d v k
  Call-IsCoherent {c} {r} d (gets_by_identifier m i) v = get_by_identifier-IsCoherent c m r d v i
  Call-IsCoherent {c} {r} d (gets_by_ids m ids) v = get_by_ids-IsCoherent c m d ids r v
  Call-IsCoherent {c} {r} d (creates m t) v = create-IsCoherent c m r d v t
  Call-IsCoherent {c} {r} d (updates m stamp t free) v = update-IsCoherent c m r d v stamp t free
  Call-IsCoherent {c} {r} d (sets_status m stamp k st) v =
      set_status-IsCoherent c m r d v stamp k st
  Call-IsCoherent {c} {r} d (updates_metadata m stamp k x) v =
      update_metadata-IsCoherent c m r d v stamp k x
  Call-IsCoherent {c} {r} d (deletes m k) v = delete-IsCoherent c m r d v k

  pub Reach-IsCoherent :
      {c : Codec B} {r : RedisTenantStore B} → Decodes c → Reach c r → IsCoherent c r
  unfolding get
  Reach-IsCoherent d (start s ttl prefix cons) = record { consistent = cons; entry = λ key e h. cc }
  Reach-IsCoherent d (next reach call) = Call-IsCoherent d call (Reach-IsCoherent d reach)
