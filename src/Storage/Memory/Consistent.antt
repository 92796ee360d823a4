-- ===== src/Storage/Memory/Consistent.antt =====
-- storage/memory.py: the invariant of the two indices, method by method.
use fastapi_tenancy.Prelude.{
  ℕ, ◌≡◌, inl, inr, refl, Text, Option, none, some, List, [], ◌∷◌, length, arith, Option-cases,
}
use fastapi_tenancy.Prelude.Dict.{
  Dict, IsDict, get, put, get-put, get-del, put-IsDict, del-IsDict, length-put, length-del,
}
use fastapi_tenancy.Core.Types.{Tenant, TenantStatus, Json}
use fastapi_tenancy.Storage.Memory.{
  MemoryStore, empty, create, delete, set_status, update_metadata, with_status, with_metadata,
  bulk_loop, bulk_update_status,
}

abbrev pub identifier_of : Option Tenant → Option Text
identifier_of none = none
identifier_of (some t) = some t.identifier

pub record IsConsistent (s : MemoryStore) : Type 0 where
  pub tenants_dict : IsDict s.tenants
  pub index_dict : IsDict s.identifier_map
  -- a tenant is stored under its id, and the index has its identifier
  pub under_id : (k : Text) (t : Tenant) → get k s.tenants ≡ some t → t.id ≡ k
  pub indexed :
      (k : Text) (t : Tenant)
      → get k s.tenants ≡ some t
      → get t.identifier s.identifier_map ≡ some k
  -- the index names only tenants that are there, under their identifier
  pub backed :
      (i k : Text) → get i s.identifier_map ≡ some k → identifier_of (get k s.tenants) ≡ some i
  pub sizes : length s.identifier_map ≡ length s.tenants

pub empty-IsConsistent : IsConsistent empty
unfolding get
empty-IsConsistent = record {
  tenants_dict = tt;
  index_dict = tt;
  under_id = λ k t h. cc;
  indexed = λ k t h. cc;
  backed = λ i k h. cc;
  sizes = refl;
}

pub create-IsConsistent :
    (t : Tenant) {s : MemoryStore} → IsConsistent s → IsConsistent (create t s).1
unfolding create
create-IsConsistent t {s} c = elim (Option-cases (get t.id s.tenants)) [
  | inr (o, e) ↦ rw (e, create) c
  | inl e ↦ elim (Option-cases (get t.identifier s.identifier_map)) [
    | inr (o, f) ↦ rw (e, f, create) c
    | inl f ↦
        rw (e, f, create)
          (record {
            tenants_dict = put-IsDict _ _ _ c.tenants_dict;
            index_dict = put-IsDict _ _ _ c.index_dict;
            under_id = λ k u h. ground (arith, get-put k t.id t s.tenants, c.under_id k u);
            indexed = λ k u h. ground (
              arith,
              get-put k t.id t s.tenants,
              c.indexed k u,
              get-put u.identifier t.identifier t.id s.identifier_map,
            );
            backed = λ i k h. ground (
              arith,
              get-put i t.identifier t.id s.identifier_map,
              get-put k t.id t s.tenants,
              c.backed i k,
            );
            sizes = ground (
              arith,
              c.sizes,
              length-put t.id t s.tenants,
              length-put t.identifier t.id s.identifier_map,
            );
          })
  ]
]

-- A record may be replaced by one with the same id and identifier.
pub replaced-IsConsistent :
    (k : Text) (t t' : Tenant) {s : MemoryStore}
    → IsConsistent s
    → get k s.tenants ≡ some t
    → t'.id ≡ t.id
    → t'.identifier ≡ t.identifier
    → IsConsistent (record s { tenants = put k t' s.tenants })
replaced-IsConsistent k t t' {s} c e p q = record {
  tenants_dict = put-IsDict _ _ _ c.tenants_dict;
  index_dict = c.index_dict;
  under_id = λ j u h. ground (arith, get-put j k t' s.tenants, c.under_id j u, c.under_id k t);
  indexed = λ j u h. ground (arith, get-put j k t' s.tenants, c.indexed j u, c.indexed k t);
  backed = λ i j h. ground (arith, get-put j k t' s.tenants, c.backed i j h);
  sizes = ground (arith, c.sizes, length-put k t' s.tenants);
}

pub set_status-IsConsistent :
    (now : ℕ) (k : Text) (st : TenantStatus) {s : MemoryStore}
    → IsConsistent s
    → IsConsistent (set_status now k st s).1
unfolding set_status
set_status-IsConsistent now k st {s} c = elim (Option-cases (get k s.tenants)) [
  | inl e ↦ rw (e, set_status) c
  | inr (t, e) ↦ rw (e, set_status) (replaced-IsConsistent k t (with_status st now t) c e refl refl)
]

pub update_metadata-IsConsistent :
    (now : ℕ) (k : Text) (m : Dict Json) {s : MemoryStore}
    → IsConsistent s
    → IsConsistent (update_metadata now k m s).1
unfolding update_metadata
update_metadata-IsConsistent now k m {s} c = elim (Option-cases (get k s.tenants)) [
  | inl e ↦ rw (e, update_metadata) c
  | inr (t, e) ↦
      rw (e, update_metadata) (replaced-IsConsistent k t (with_metadata m now t) c e refl refl)
]

bulk_loop-IsConsistent :
    (now : ℕ) (st : TenantStatus) (ids : List Text) {s : MemoryStore}
    → IsConsistent s
    → IsConsistent (record s { tenants = (bulk_loop now st ids s.tenants).1 })
unfolding bulk_loop
bulk_loop-IsConsistent now st [] c = c
bulk_loop-IsConsistent now st (k ∷ ids) {s} c = elim (Option-cases (get k s.tenants)) [
  | inl e ↦ rw (e, bulk_loop) (bulk_loop-IsConsistent now st ids c)
  | inr (t, e) ↦
      rw (e, bulk_loop)
        (bulk_loop-IsConsistent now st ids
          (replaced-IsConsistent k t (with_status st now t) c e refl refl))
]

pub bulk_update_status-IsConsistent :
    (now : ℕ) (ids : List Text) (st : TenantStatus) {s : MemoryStore}
    → IsConsistent s
    → IsConsistent (bulk_update_status now ids st s).1
unfolding bulk_update_status
bulk_update_status-IsConsistent now ids st c = bulk_loop-IsConsistent now st ids c

pub delete-IsConsistent :
    (k : Text) {s : MemoryStore} → IsConsistent s → IsConsistent (delete k s).1
unfolding delete
delete-IsConsistent k {s} c = elim (Option-cases (get k s.tenants)) [
  | inl e ↦ rw (e, delete) c
  | inr (t, e) ↦
      let f = c.indexed k t e in
      rw (e, f, delete)
        (record {
          tenants_dict = del-IsDict _ _ c.tenants_dict;
          index_dict = del-IsDict _ _ c.index_dict;
          under_id = λ j u h. ground (arith, get-del j k s.tenants, c.under_id j u);
          indexed = λ j u h. ground (
            arith,
            get-del j k s.tenants,
            get-del u.identifier t.identifier s.identifier_map,
            c.indexed j u,
          );
          backed = λ i j h.
              ground (
                arith,
                get-del j k s.tenants,
                get-del i t.identifier s.identifier_map,
                c.backed i j,
              );
          sizes = ground (
            arith,
            c.sizes,
            length-del k s.tenants c.tenants_dict,
            length-del t.identifier s.identifier_map c.index_dict,
          );
        })
]
