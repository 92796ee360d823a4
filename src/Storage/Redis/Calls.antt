-- ===== src/Storage/Redis/Calls.antt =====
-- storage/redis.py: the invariant after each method.
use fastapi_tenancy.Prelude.{◌≡◌, refl, ap, ◌∙◌, inl, inr, ℕ, Text, some, arith, Option-cases}
use fastapi_tenancy.Prelude.Dict.{Dict, get}
use fastapi_tenancy.Core.Types.{Tenant, TenantStatus, Json}
use fastapi_tenancy.Core.Exceptions.{Result, ok, raise, Result-cases}
use fastapi_tenancy.Storage.Memory as Store
use fastapi_tenancy.Storage.Memory.{MemoryStore}
use fastapi_tenancy.Storage.Memory.Consistent.{
  IsConsistent, create-IsConsistent, delete-IsConsistent, set_status-IsConsistent,
  update_metadata-IsConsistent,
}
use fastapi_tenancy.Storage.Memory.Rename.{IsFree, update-IsConsistent}
use fastapi_tenancy.Storage.Memory.Effects.{
  Write, write-raise, write-stores, delete-raise, delete-removes,
}
use fastapi_tenancy.Storage.Memory.Reach.{get_by_identifier_iff}
use fastapi_tenancy.Storage.Memory.Stored.{create-ok}
use fastapi_tenancy.Storage.Redis.{
  Codec, RedisTenantStore, Moment, slug_key, read, get_old_tenant, old_tenant, fetched, get_by_id,
  get_by_identifier, create, update, set_status, update_metadata, delete,
}
use fastapi_tenancy.Storage.Redis.Coherent.{
  Decodes, IsCoherent, cache_set-IsCoherent, cache_invalidate-IsCoherent,
}
use fastapi_tenancy.Storage.Redis.Preserved.{
  Writes, primary-held, old_tenant-held, moved, written-IsCoherent,
}

updates-Writes :
    (now : ℕ) (t : Tenant) (s : MemoryStore)
    → IsConsistent s
    → IsFree t s
    → Writes t.id (Write.updates now t) s
unfolding Store.update
updates-Writes now t s cons free = record {
  keeps = update-IsConsistent now t free cons;
  names = λ u h. ground arith;
}

sets_status-Writes :
    (now : ℕ) (k : Text) (st : TenantStatus) (s : MemoryStore)
    → IsConsistent s
    → Writes k (Write.sets_status now k st) s
unfolding Store.set_status
sets_status-Writes now k st s cons = record {
  keeps = set_status-IsConsistent now k st cons;
  names = λ u h. elim (Option-cases (get k s.tenants)) [
    | inl e ↦ ground (arith, e)
    | inr (x, e) ↦ ground (arith, e, cons.under_id k x e)
  ];
}

updates_metadata-Writes :
    (now : ℕ) (k : Text) (metadata : Dict Json) (s : MemoryStore)
    → IsConsistent s
    → Writes k (Write.updates_metadata now k metadata) s
unfolding Store.update_metadata
updates_metadata-Writes now k metadata s cons = record {
  keeps = update_metadata-IsConsistent now k metadata cons;
  names = λ u h. elim (Option-cases (get k s.tenants)) [
    | inl e ↦ ground (arith, e)
    | inr (x, e) ↦ ground (arith, e, cons.under_id k x e)
  ];
}

module _ {B : Type 0} where
  module _ (c : Codec B) (m : Moment) (r : RedisTenantStore B) (d : Decodes c)
      (v : IsCoherent c r) where
    pub update-IsCoherent :
        (now : ℕ) (t : Tenant) → IsFree t r.primary → IsCoherent c (update c m now t r).1
    unfolding update
    update-IsCoherent now t free =
        written-IsCoherent c m t.id (Write.updates now t) r d v
          (updates-Writes now t r.primary v.consistent free)

    pub set_status-IsCoherent :
        (now : ℕ) (k : Text) (st : TenantStatus) → IsCoherent c (set_status c m now k st r).1
    unfolding set_status
    set_status-IsCoherent now k st =
        written-IsCoherent c m k (Write.sets_status now k st) r d v
          (sets_status-Writes now k st r.primary v.consistent)

    pub update_metadata-IsCoherent :
        (now : ℕ) (k : Text) (metadata : Dict Json)
        → IsCoherent c (update_metadata c m now k metadata r).1
    unfolding update_metadata
    update_metadata-IsCoherent now k metadata =
        written-IsCoherent c m k (Write.updates_metadata now k metadata) r d v
          (updates_metadata-Writes now k metadata r.primary v.consistent)

    pub create-IsCoherent : (t : Tenant) → IsCoherent c (create c m t r).1
    unfolding create fetched
    create-IsCoherent t =
        let stored = λ (u : Tenant) (j : Text) (f : (Store.create t r.primary).0 ≡ ok u).
          write-stores (Write.creates t) r.primary u j v.consistent f in
        elim (Result-cases (Store.create t r.primary).0) [
          | inr (x, f) ↦
              rw (f, create, fetched)
                (moved c _ r v (create-IsConsistent t v.consistent)
                  (λ j u h. rw (write-raise (Write.creates t) r.primary x f) h))
          | inl (u, f) ↦
              rw (f, create, fetched)
                (cache_set-IsCoherent c m u _ d (ground (arith, stored u u.id f)) (
                  moved c _ r v (create-IsConsistent t v.consistent) (λ j w h.
                    let (_, absent, after) = create-ok t u r.primary f in
                    ground (arith, after j, absent, h))))
        ]

    pub delete-IsCoherent : (k : Text) → IsCoherent c (delete c m k r).1
    unfolding delete
    delete-IsCoherent k =
        let cons = delete-IsConsistent k v.consistent in
        elim (Result-cases (old_tenant c m k r)) [
          | inr (x, f) ↦ rw (f, delete) v
          | inl (old, f) ↦
              let held = old_tenant-held c m k old r v f in
              let same : old.id ≡ k = v.consistent.under_id k old held in
              elim (Result-cases (Store.delete k r.primary).0) [
                | inr (x, g) ↦
                    rw (f, g, delete)
                      (moved c _ r v cons (λ j t h. rw (delete-raise k r.primary x g) h))
                | inl (_, g) ↦
                    rw (f, g, delete)
                      (cache_invalidate-IsCoherent c old _ r v cons
                        (ap (λ j. get j r.primary.tenants) same ∙ held)
                        (λ j n. ground (arith, delete-removes k r.primary j g, same, n)))
              ]
        ]

    -- The reads that may cache what the primary store answered.
    fetched-IsCoherent :
        (answer : Result Tenant)
        → ((t : Tenant) → answer ≡ ok t → get t.id r.primary.tenants ≡ some t)
        → IsCoherent c (fetched c m answer r).1
    unfolding fetched
    fetched-IsCoherent (raise e) h = v
    fetched-IsCoherent (ok t) h = cache_set-IsCoherent c m t r d (h t refl) v

    pub get_by_id-IsCoherent : (k : Text) → IsCoherent c (get_by_id c m k r).1
    unfolding get_by_id
    get_by_id-IsCoherent k = elim (Option-cases (get_old_tenant c m k r)) [
      | inr (t, f) ↦ rw (f, get_by_id) v
      | inl f ↦
          rw (f, get_by_id)
            (fetched-IsCoherent (Store.get_by_id r.primary k) (λ t h. ground (
              arith,
              primary-held k t r.primary h,
              v.consistent.under_id k t (primary-held k t r.primary h),
            )))
    ]

    pub get_by_identifier-IsCoherent : (i : Text) → IsCoherent c (get_by_identifier c m i r).1
    unfolding get_by_identifier
    get_by_identifier-IsCoherent i =
        elim (Option-cases (read m.now (slug_key r.prefix i) r.entries)) [
          | inr (t, f) ↦ rw (f, get_by_identifier) v
          | inl f ↦
              rw (f, get_by_identifier)
                (fetched-IsCoherent (Store.get_by_identifier r.primary i)
                  (λ t h. (((get_by_identifier_iff r.primary i v.consistent).0 t).0 h).0))
        ]
