-- ===== src/Storage/Sql/Alike.antt =====
-- storage/database.py: the methods of the SQL store beside those of the in-memory store.
use fastapi_tenancy.Prelude.{
  ◌≡◌, ◌≢◌, refl, sym, ap, ◌∙◌, ℕ, Text, text_dec, text_eq, [], ◌∷◌, Option, none, some, arith, inl,
  inr, Option-cases, if◌then◌else◌,
}
use fastapi_tenancy.Prelude.Dict.{Dict, IsDict, get}
use fastapi_tenancy.Core.Types.{Tenant, TenantStatus, Json}
use fastapi_tenancy.Core.Exceptions.{Result}
use fastapi_tenancy.Storage.Memory as Store
use fastapi_tenancy.Storage.Memory.{MemoryStore, subscript, with_status, with_metadata, merge}
use fastapi_tenancy.Storage.Memory.Consistent.{IsConsistent}
use fastapi_tenancy.Storage.Sql.{
  Codec, TenantModel, of_domain, with_identifier, get_by_id, get_by_identifier, create, delete,
  set_status, update_metadata_generic,
}
use fastapi_tenancy.Storage.Sql.Rows.{
  Loads, table, row, to_domain-of_domain, get-table, put-table, del-table,
}

-- The first tenant with an identifier.
unfoldable holder : Text → Dict Tenant → Option Tenant
holder i [] = none
holder i ((k, t) ∷ d) = let rest = holder i d in if text_eq t.identifier i then some t else rest

holder-none :
    (i k : Text) (t : Tenant) (d : Dict Tenant)
    → holder i d ≡ none
    → get k d ≡ some t
    → t.identifier ≢ i
unfolding holder get
holder-none i k t [] h g = cc
holder-none i k t ((j, u) ∷ d) h g = λ e. ground (arith, holder-none i k t d, h, g, e)

holder-some :
    (i : Text) (t : Tenant) (d : Dict Tenant)
    → IsDict d
    → holder i d ≡ some t
    → (k : Text) × (get k d ≡ some t) × (t.identifier ≡ i)
unfolding holder get
holder-some i t [] v h = cc
holder-some i t ((j, u) ∷ d) v h = elim (text_dec u.identifier i) [
  | yes p ↦ (j, ground (arith, h, p), ground (arith, h, p))
  | no n ↦
      let (k, g, e) = holder-some i t d v.1 (ground (arith, h, n)) in (k, ground (arith, g, v.0), e)
]

-- What the index of a consistent store finds.
abbrev indexed : MemoryStore → Option Text → Option Tenant
indexed s none = none
indexed s (some k) = get k s.tenants

holder-indexed :
    (i : Text) (s : MemoryStore)
    → IsConsistent s
    → holder i s.tenants ≡ indexed s (get i s.identifier_map)
holder-indexed i s v = elim (Option-cases (holder i s.tenants)) [
  | inr (t, e) ↦
      let (k, g, p) = holder-some i t s.tenants v.tenants_dict e in
      let at : get i s.identifier_map ≡ some k =
        ap (λ x. get x s.identifier_map) (sym p) ∙ v.indexed k t g in
      rw at (e ∙ sym g)
  | inl e ↦ elim (Option-cases (get i s.identifier_map)) [
    | inl f ↦ rw f e
    | inr (k, f) ↦ elim (Option-cases (get k s.tenants)) [
      | inl g ↦ rw (f, g) e
      | inr (t, g) ↦ absurd (holder-none i k t s.tenants e g (ground (arith, v.backed i k f, g)))
    ]
  ]
]

-- What a method of the in-memory store gives, with the table for its tenants.
abbrev pub tabled :
    {A B : Type 0} → Codec B → Result A × MemoryStore → Result A × Dict (TenantModel B)
tabled c (r, s) = (r, table c s.tenants)

module _ {B : Type 0} (c : Codec B) (loads : Loads c) where
  with_identifier-table :
      (i : Text) (d : Dict Tenant) → with_identifier i (table c d) ≡ row c (holder i d)
  unfolding with_identifier holder of_domain
  with_identifier-table i [] = refl
  with_identifier-table i ((k, t) ∷ d) = ground (arith, with_identifier-table i d)

  pub get_by_id_alike :
      (k : Text) (s : MemoryStore) → get_by_id c k (table c s.tenants) ≡ Store.get_by_id s k
  unfolding get_by_id Store.get_by_id
  get_by_id_alike k s = elim (Option-cases (get k s.tenants)) [
    | inl e ↦ ground (arith, get-table c k s.tenants, e)
    | inr (t, e) ↦ ground (arith, get-table c k s.tenants, e, to_domain-of_domain c t loads)
  ]

  get_by_identifier_alike :
      (i : Text) (s : MemoryStore)
      → IsConsistent s
      → get_by_identifier c i (table c s.tenants) ≡ Store.get_by_identifier s i
  unfolding get_by_identifier Store.get_by_identifier subscript
  get_by_identifier_alike i s v =
      let found = with_identifier-table i s.tenants in
      let same = holder-indexed i s v in
      elim (Option-cases (get i s.identifier_map)) [
        | inl e ↦ ground (arith, found, same, e)
        | inr (k, e) ↦ elim (Option-cases (get k s.tenants)) [
          | inl f ↦ ground (arith, v.backed i k e, f)
          | inr (t, f) ↦ ground (arith, found, same, e, f, to_domain-of_domain c t loads)
        ]
      ]

  pub create_alike :
      (t : Tenant) (s : MemoryStore)
      → IsConsistent s
      → create c t (table c s.tenants) ≡ tabled c (Store.create t s)
  unfolding create Store.create
  create_alike t s v =
      let taken = with_identifier-table t.identifier s.tenants in
      let same = holder-indexed t.identifier s v in
      let put_in = put-table c t.id t s.tenants in
      elim (Option-cases (get t.id s.tenants)) [
        | inr (u, e) ↦ rw (get-table c t.id s.tenants, e, create, Store.create) refl
        | inl e ↦ elim (Option-cases (get t.identifier s.identifier_map)) [
          | inl f ↦
              rw
                (
                  get-table c t.id s.tenants,
                  e,
                  taken,
                  same,
                  f,
                  to_domain-of_domain c t loads,
                  put_in,
                  create,
                  Store.create,
                )
                refl
          | inr (k, f) ↦ elim (Option-cases (get k s.tenants)) [
            | inl g ↦ ground (arith, v.backed t.identifier k f, g)
            | inr (u, g) ↦
                rw (get-table c t.id s.tenants, e, taken, same, f, g, create, Store.create) refl
          ]
        ]
      ]

  pub delete_alike :
      (k : Text) (s : MemoryStore)
      → IsConsistent s
      → delete k (table c s.tenants) ≡ tabled c (Store.delete k s)
  unfolding delete Store.delete
  delete_alike k s v = elim (Option-cases (get k s.tenants)) [
    | inl e ↦ rw (get-table c k s.tenants, e, delete, Store.delete) refl
    | inr (t, e) ↦
        rw
          (
            get-table c k s.tenants,
            e,
            v.indexed k t e,
            del-table c k s.tenants,
            delete,
            Store.delete,
          )
          refl
  ]

  pub set_status_alike :
      (now : ℕ) (k : Text) (st : TenantStatus) (s : MemoryStore)
      → set_status c now k st (table c s.tenants) ≡ tabled c (Store.set_status now k st s)
  unfolding set_status Store.set_status of_domain
  set_status_alike now k st s = elim (Option-cases (get k s.tenants)) [
    | inl e ↦ rw (get-table c k s.tenants, e, set_status, Store.set_status) refl
    | inr (t, e) ↦
        rw
          (
            get-table c k s.tenants,
            e,
            to_domain-of_domain c (with_status st now t) loads,
            put-table c k (with_status st now t) s.tenants,
            set_status,
            Store.set_status,
          )
          refl
  ]

  update_metadata_alike :
      (now : ℕ) (k : Text) (metadata : Dict Json) (s : MemoryStore)
      → update_metadata_generic c now k metadata (table c s.tenants)
        ≡ tabled c (Store.update_metadata now k metadata s)
  unfolding update_metadata_generic Store.update_metadata of_domain
  update_metadata_alike now k metadata s = elim (Option-cases (get k s.tenants)) [
    | inl e ↦ rw (get-table c k s.tenants, e, update_metadata_generic, Store.update_metadata) refl
    | inr (t, e) ↦
        rw
          (
            get-table c k s.tenants,
            e,
            loads t.metadata,
            to_domain-of_domain c (with_metadata metadata now t) loads,
            put-table c k (with_metadata metadata now t) s.tenants,
            update_metadata_generic,
            Store.update_metadata,
          )
          refl
  ]

-- With metadata that json reads as it wrote them: on the table for the tenants of a consistent
-- in-memory store, the SQL store answers get_by_id, get_by_identifier, create, delete, set_status and,
-- on every dialect but PostgreSQL, update_metadata as the in-memory store does, raised errors
-- included, and leaves the table for the tenants that the in-memory store then has.
pub sql_alike :
    {B : Type 0} (c : Codec B) (s : MemoryStore) (t : Tenant) (k i : Text) (now : ℕ)
    (st : TenantStatus) (metadata : Dict Json)
    → Loads c
    → IsConsistent s
    → (get_by_id c k (table c s.tenants) ≡ Store.get_by_id s k)
      × (get_by_identifier c i (table c s.tenants) ≡ Store.get_by_identifier s i)
      × (create c t (table c s.tenants) ≡ tabled c (Store.create t s))
      × (delete k (table c s.tenants) ≡ tabled c (Store.delete k s))
      × (set_status c now k st (table c s.tenants) ≡ tabled c (Store.set_status now k st s))
      × (update_metadata_generic c now k metadata (table c s.tenants)
          ≡ tabled c (Store.update_metadata now k metadata s))
sql_alike c s t k i now st metadata loads v = (
  get_by_id_alike c loads k s,
  get_by_identifier_alike c loads i s v,
  create_alike c loads t s v,
  delete_alike c loads k s v,
  set_status_alike c loads now k st s,
  update_metadata_alike c loads now k metadata s,
)
