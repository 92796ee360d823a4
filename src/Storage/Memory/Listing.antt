-- ===== src/Storage/Memory/Listing.antt =====
-- list and count of InMemoryTenantStore.
use native.Mathlib.Nat.{zero-add, suc-add}
use fastapi_tenancy.Prelude.{
  ℕ, zero, suc, ◌+◌, ◌-◌, ◌≤◌, min, ◌≡◌, refl, sym, ap, ◌∙◌, Option, none, some, List, [], ◌∷◌,
  ◌++◌, length, take, drop, length-take, length-drop, arith,
}
use fastapi_tenancy.Prelude.Dict.{Dict, values}
use fastapi_tenancy.Prelude.Sorting.{
  IsDescending, sort_desc, sort-IsDescending, length-sort, at_key, at_key-sort,
}
use fastapi_tenancy.Core.Types.{Tenant, TenantStatus}
use fastapi_tenancy.Storage.Memory.{MemoryStore, filter_status, list, count}

pub length-values : (d : Dict Tenant) → length (values d) ≡ length d
length-values [] = refl
length-values (e ∷ d) = ap suc (length-values d)

count-eq :
    (s : MemoryStore) (st : Option TenantStatus)
    → count s st ≡ length (filter_status st (values s.tenants))
unfolding count
count-eq s none = omega (arith, length-values s.tenants)
count-eq s (some st) = refl

-- A page has as many tenants as count() leaves after the skipped ones, and at most `limit`.
pub length-list :
    (s : MemoryStore) (skip limit : ℕ) (st : Option TenantStatus)
    → length (list s skip limit st) ≡ min limit (count s st - skip)
unfolding list
length-list s skip limit st =
    let sorted = sort_desc (λ (t : Tenant). t.created_at) (filter_status st (values s.tenants)) in
    omega (
      arith,
      length-take limit (drop skip sorted),
      length-drop skip sorted,
      length-sort (λ (t : Tenant). t.created_at) (filter_status st (values s.tenants)),
      count-eq s st,
    )

module _ {A : Type 0} where
  drop-nil : (n : ℕ) → drop {A = A} n [] ≡ []
  drop-nil zero = refl
  drop-nil (suc n) = refl

  take-nil : (n : ℕ) → take {A = A} n [] ≡ []
  take-nil zero = refl
  take-nil (suc n) = refl

  pub drop-drop : (m n : ℕ) (xs : List A) → drop (m + n) xs ≡ drop n (drop m xs)
  drop-drop zero n xs = rw zero-add
  drop-drop (suc m) n [] = rw suc-add (sym (drop-nil n))
  drop-drop (suc m) n (x ∷ xs) = rw suc-add (drop-drop m n xs)

  pub take-add : (m n : ℕ) (xs : List A) → take (m + n) xs ≡ take m xs ++ take n (drop m xs)
  take-add zero n xs = rw zero-add
  take-add (suc m) n [] = rw suc-add (sym (take-nil n))
  take-add (suc m) n (x ∷ xs) = rw suc-add (ap (◌∷◌ x) (take-add m n xs))

  pub take-all : (n : ℕ) (xs : List A) → length xs ≤ n → take n xs ≡ xs
  take-all zero [] h = refl
  take-all zero (x ∷ xs) h = absurd (omega arith)
  take-all (suc n) [] h = refl
  take-all (suc n) (x ∷ xs) h = ap (◌∷◌ x) (take-all n xs (omega arith))

  module _ (key : A → ℕ) where
    pub take-IsDescending :
        (n : ℕ) (xs : List A) → IsDescending key xs → IsDescending key (take n xs)
    take-IsDescending zero xs h = tt
    take-IsDescending (suc n) [] h = tt
    take-IsDescending (suc n) (x ∷ []) h = rw take-nil tt
    take-IsDescending (suc zero) (x ∷ y ∷ xs) h = tt
    take-IsDescending (suc (suc n)) (x ∷ y ∷ xs) h = (h.0, take-IsDescending (suc n) (y ∷ xs) h.1)

    drop-IsDescending : (n : ℕ) (xs : List A) → IsDescending key xs → IsDescending key (drop n xs)
    drop-IsDescending zero xs h = h
    drop-IsDescending (suc n) [] h = tt
    drop-IsDescending (suc n) (x ∷ []) h = rw drop-nil tt
    drop-IsDescending (suc n) (x ∷ y ∷ xs) h = drop-IsDescending n (y ∷ xs) h.1

-- Two pages in a row are one page of both sizes together.
pub list-pages :
    (s : MemoryStore) (skip m n : ℕ) (st : Option TenantStatus)
    → list s skip (m + n) st ≡ list s skip m st ++ list s (skip + m) n st
unfolding list
list-pages s skip m n st =
    let sorted = sort_desc (λ (t : Tenant). t.created_at) (filter_status st (values s.tenants)) in
    rw (drop-drop skip m sorted) (take-add m n (drop skip sorted))

-- A page from the start with room for count() tenants is in descending order of creation and holds,
-- for each creation time, exactly the stored tenants of that time that pass the filter, in insertion
-- order.
pub list_complete :
    (s : MemoryStore) (limit : ℕ) (st : Option TenantStatus) (k : ℕ)
    → count s st ≤ limit
    → IsDescending (λ t. t.created_at) (list s 0 limit st)
      × (at_key (λ t. t.created_at) k (list s 0 limit st)
          ≡ at_key (λ t. t.created_at) k (filter_status st (values s.tenants)))
unfolding list
list_complete s limit st k h =
    let made = λ (t : Tenant). t.created_at in
    let ts = filter_status st (values s.tenants) in
    let whole =
      take-all limit (sort_desc made ts) (omega (arith, length-sort made ts, count-eq s st)) in
    (
      take-IsDescending made limit _ (sort-IsDescending made ts),
      ap (at_key made k) whole ∙ at_key-sort made k ts,
    )
