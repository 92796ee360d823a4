-- ===== src/Storage/Redis/Maps.antt =====
-- storage/redis.py: the map from ids to tenants that get_by_ids builds, against the primary store.
use fastapi_tenancy.Prelude.{
  ◌≡◌, refl, ap, ◌∙◌, inl, inr, Text, text_dec, some, List, [], ◌∷◌, arith, Option-cases,
}
use fastapi_tenancy.Prelude.Dict.{Dict, get, put, get-put}
use fastapi_tenancy.Core.Types.{Tenant}
use fastapi_tenancy.Storage.Memory as Store
use fastapi_tenancy.Storage.Memory.{MemoryStore}
use fastapi_tenancy.Storage.Memory.Consistent.{IsConsistent}
use fastapi_tenancy.Storage.Redis.Batch.{add_all, pick}

module _ (s : MemoryStore) where
  abbrev pub Stored : Tenant → Type 0
  Stored t = get t.id s.tenants ≡ some t

  abbrev pub AllStored : List Tenant → Type 0
  AllStored [] = Unit
  AllStored (t ∷ ts) = Stored t × AllStored ts

  -- A map with nothing but what the store has, and one with all that the store has under a key.
  abbrev pub Sound : Dict Tenant → Type 0
  Sound d = (j : Text) (t : Tenant) → get j d ≡ some t → get j s.tenants ≡ some t

  abbrev pub Covers : Text → Dict Tenant → Type 0
  Covers j d = (t : Tenant) → get j s.tenants ≡ some t → get j d ≡ some t

  abbrev pub Covered : List Text → Dict Tenant → Type 0
  Covered [] d = Unit
  Covered (j ∷ ids) d = Covers j d × Covered ids d

  pub put-Sound :
      (k : Text) (t : Tenant) (d : Dict Tenant)
      → get k s.tenants ≡ some t
      → Sound d
      → Sound (put k t d)
  put-Sound k t d h v j u g = ground (arith, get-put j k t d, v j u, h, g)

  pub add_all-Sound :
      (ts : List Tenant) (d : Dict Tenant) → AllStored ts → Sound d → Sound (add_all ts d)
  unfolding add_all
  add_all-Sound [] d a v = v
  add_all-Sound (t ∷ ts) d a v = add_all-Sound ts (put t.id t d) a.1 (put-Sound t.id t d a.0 v)

  pub put-Covers :
      (j k : Text) (t : Tenant) (d : Dict Tenant)
      → get k s.tenants ≡ some t
      → Covers j d
      → Covers j (put k t d)
  put-Covers j k t d h v u g = ground (arith, get-put j k t d, v u, h, g)

  pub put-there :
      (k : Text) (t : Tenant) (d : Dict Tenant) → get k s.tenants ≡ some t → Covers k (put k t d)
  put-there k t d h u g = ground (arith, get-put k k t d, h, g)

  pub add_all-Covers :
      (j : Text) (ts : List Tenant) (d : Dict Tenant)
      → AllStored ts
      → Covers j d
      → Covers j (add_all ts d)
  unfolding add_all
  add_all-Covers j [] d a v = v
  add_all-Covers j (t ∷ ts) d a v =
      add_all-Covers j ts (put t.id t d) a.1 (put-Covers j t.id t d a.0 v)

  -- What one map covers after additions, another one covers that covered as much before.
  add_all-monotone :
      (j : Text) (ts : List Tenant) (d e : Dict Tenant)
      → AllStored ts
      → (Covers j d → Covers j e)
      → Covers j (add_all ts d)
      → Covers j (add_all ts e)
  unfolding add_all
  add_all-monotone j [] d e a f v = f v
  add_all-monotone j (t ∷ ts) d e a f v =
      add_all-monotone j ts (put t.id t d) (put t.id t e) a.1
        (λ w. elim (text_dec t.id j) [
          | yes p ↦ λ u g. ground (arith, get-put j t.id t e, a.0, g, p)
          | no n ↦ λ u g.
              let before = f (λ x h. ground (arith, get-put j t.id t d, w x h, n)) u g in
              ground (arith, get-put j t.id t e, before, n)
        ])
        v

  pub add_all-Covered :
      (ids : List Text) (t : Tenant) (ts : List Tenant) (d : Dict Tenant)
      → AllStored (t ∷ ts)
      → Covered ids (add_all ts d)
      → Covered ids (add_all (t ∷ ts) d)
  unfolding add_all
  add_all-Covered [] t ts d a v = tt
  add_all-Covered (j ∷ ids) t ts d a v = (
    add_all-monotone j ts d (put t.id t d) a.1 (put-Covers j t.id t d a.0) v.0,
    add_all-Covered ids t ts d a v.1,
  )

  pub get_by_ids-AllStored : (ids : List Text) → IsConsistent s → AllStored (Store.get_by_ids s ids)
  unfolding Store.get_by_ids
  get_by_ids-AllStored [] c = tt
  get_by_ids-AllStored (k ∷ ids) c = elim (Option-cases (get k s.tenants)) [
    | inl e ↦ rw (e, Store.get_by_ids) (get_by_ids-AllStored ids c)
    | inr (t, e) ↦
        rw (e, Store.get_by_ids)
          (ap (λ j. get j s.tenants) (c.under_id k t e) ∙ e, get_by_ids-AllStored ids c)
  ]

  pub pick-get_by_ids :
      (ids : List Text) (d : Dict Tenant)
      → Sound d
      → Covered ids d
      → pick ids d ≡ Store.get_by_ids s ids
  unfolding pick Store.get_by_ids
  pick-get_by_ids [] d v w = refl
  pick-get_by_ids (k ∷ ids) d v w =
      let rest = pick-get_by_ids ids d v w.1 in
      elim (Option-cases (get k s.tenants)) [
        | inr (t, e) ↦ ground (arith, e, w.0 t e, rest)
        | inl e ↦ elim (Option-cases (get k d)) [
          | inl f ↦ ground (arith, e, f, rest)
          | inr (u, f) ↦ ground (arith, e, v k u f)
        ]
      ]
