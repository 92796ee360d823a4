-- ===== src/Storage/Memory/Rename.antt =====
-- storage/memory.py: the invariant of the two indices under update.
use fastapi_tenancy.Prelude.{
  ℕ, ◌≡◌, ◌≢◌, inl, inr, sym, Text, text_dec, none, some, if_neg, arith, Option-cases,
}
use fastapi_tenancy.Prelude.Dict.{
  Dict, get, put, del, get-put, get-del, put-IsDict, del-IsDict, length-put, length-del,
}
use fastapi_tenancy.Core.Types.{Tenant}
use fastapi_tenancy.Core.Exceptions.{ok}
use fastapi_tenancy.Storage.Memory.{MemoryStore, reindex, update, stamped}
use fastapi_tenancy.Storage.Memory.Consistent.{IsConsistent, replaced-IsConsistent}

-- The new identifier belongs to no other tenant.
abbrev pub IsFree : Tenant → MemoryStore → Type 0
IsFree t s = (k : Text) → get t.identifier s.identifier_map ≡ some k → k ≡ t.id

reindex-same :
    (m : Dict Text) (old t : Tenant) → old.identifier ≡ t.identifier → reindex m old t ≡ ok m
unfolding reindex
reindex-same m old t p = ground arith

pub reindex-renamed :
    (m : Dict Text) (old t : Tenant) (k : Text)
    → old.identifier ≢ t.identifier
    → get old.identifier m ≡ some k
    → reindex m old t ≡ ok (put t.identifier t.id (del old.identifier m))
unfolding reindex
reindex-renamed m old t k p e = rw (if_neg _ p, e)

-- A tenant may be renamed to an identifier that no tenant has.
renamed-IsConsistent :
    (old t : Tenant) {s : MemoryStore}
    → IsConsistent s
    → get t.id s.tenants ≡ some old
    → old.identifier ≢ t.identifier
    → get t.identifier s.identifier_map ≡ none
    → IsConsistent (record {
      tenants = put t.id t s.tenants;
      identifier_map = put t.identifier t.id (del old.identifier s.identifier_map);
    })
renamed-IsConsistent old t {s} c e p f =
    let g = c.indexed t.id old e in
    record {
      tenants_dict = put-IsDict _ _ _ c.tenants_dict;
      index_dict = put-IsDict _ _ _ (del-IsDict _ _ c.index_dict);
      under_id = λ k u h. ground (arith, get-put k t.id t s.tenants, c.under_id k u);
      indexed = λ k u h. ground (
        arith,
        get-put k t.id t s.tenants,
        get-put u.identifier t.identifier t.id (del old.identifier s.identifier_map),
        get-del u.identifier old.identifier s.identifier_map,
        c.indexed k u,
      );
      backed = λ i k h. ground (
        arith,
        get-put k t.id t s.tenants,
        get-put i t.identifier t.id (del old.identifier s.identifier_map),
        get-del i old.identifier s.identifier_map,
        c.backed i k,
      );
      sizes = ground (
        arith,
        c.sizes,
        length-put t.id t s.tenants,
        length-put t.identifier t.id (del old.identifier s.identifier_map),
        get-del t.identifier old.identifier s.identifier_map,
        length-del old.identifier s.identifier_map c.index_dict,
      );
    }

free-none :
    (old t : Tenant) {s : MemoryStore}
    → IsFree t s
    → IsConsistent s
    → get t.id s.tenants ≡ some old
    → old.identifier ≢ t.identifier
    → get t.identifier s.identifier_map ≡ none
free-none old t {s} free c e p = elim (Option-cases (get t.identifier s.identifier_map)) [
  | inl f ↦ f
  | inr (k, f) ↦ ground (arith, free k f, c.backed t.identifier k f)
]

pub update-IsConsistent :
    (now : ℕ) (t : Tenant) {s : MemoryStore}
    → IsFree t s
    → IsConsistent s
    → IsConsistent (update now t s).1
unfolding update
update-IsConsistent now t {s} free c = elim (Option-cases (get t.id s.tenants)) [
  | inl e ↦ rw (e, update) c
  | inr (old, e) ↦ elim (text_dec old.identifier t.identifier) [
    | yes p ↦
        rw (e, reindex-same s.identifier_map old t p, update)
          (replaced-IsConsistent t.id old (stamped now t) c e (sym (c.under_id t.id old e)) (sym p))
    | no p ↦
        rw (e, reindex-renamed s.identifier_map old t t.id p (c.indexed t.id old e), update)
          (renamed-IsConsistent old (stamped now t) c e p (free-none old t free c e p))
  ]
]
