-- ===== src/Storage/Memory/Search.antt =====
-- search of InMemoryTenantStore.
use fastapi_tenancy.Prelude.{
  ℕ, zero, suc, ◌≤◌, ◌≡◌, refl, ap, ◌∙◌, Text, none, List, [], ◌∷◌, Bool, true, ◌&&◌, length, take,
  keep, all, length-take, arith,
}
use fastapi_tenancy.Prelude.Dict.{values}
use fastapi_tenancy.Prelude.Sorting.{
  sort_desc, insert, IsDescending, sort-IsDescending, length-sort, at_key, at_key-sort,
}
use fastapi_tenancy.Core.Types.{Tenant}
use fastapi_tenancy.Storage.Memory.{MemoryStore, list}
use fastapi_tenancy.Storage.TenantStore
use fastapi_tenancy.Storage.TenantStore.{found_in}
use fastapi_tenancy.Storage.Memory.{search, rank}
use fastapi_tenancy.Storage.Memory.Listing.{take-IsDescending, take-all, length-values}

module _ {A : Type 0} (p : A → Bool) where
  all-keep : (xs : List A) → all p (keep p xs) ≡ true
  all-keep [] = refl
  all-keep (x ∷ xs) = ground (arith, all-keep xs)

  all-insert : (key : A → ℕ) (x : A) (xs : List A) → all p (insert key x xs) ≡ (p x && all p xs)
  unfolding insert
  all-insert key x [] = refl
  all-insert key x (y ∷ xs) = ground (arith, all-insert key x xs)

  all-sort : (key : A → ℕ) (xs : List A) → all p (sort_desc key xs) ≡ all p xs
  unfolding sort_desc
  all-sort key [] = refl
  all-sort key (x ∷ xs) = ground (arith, all-insert key x (sort_desc key xs), all-sort key xs)

  all-take : (n : ℕ) (xs : List A) → all p xs ≡ true → all p (take n xs) ≡ true
  all-take zero xs h = refl
  all-take (suc n) [] h = refl
  all-take (suc n) (x ∷ xs) h = ground (arith, all-take n xs)

  length-keep-insert :
      (key : A → ℕ) (x : A) (xs : List A)
      → length (keep p (insert key x xs)) ≡ length (keep p (x ∷ xs))
  unfolding insert
  length-keep-insert key x [] = refl
  length-keep-insert key x (y ∷ xs) = ground (arith, length-keep-insert key x xs)

  length-keep-sort :
      (key : A → ℕ) (xs : List A) → length (keep p (sort_desc key xs)) ≡ length (keep p xs)
  unfolding sort_desc
  length-keep-sort key [] = refl
  length-keep-sort key (x ∷ xs) =
      length-keep-insert key x (sort_desc key xs) ∙ ground (arith, length-keep-sort key xs)

-- What search returns contains the query in its identifier or its name, comes by rank (an exact
-- identifier, then a prefix of it, then a match in the name), and is `limit` tenants at most.
pub search_lem :
    (lower : Text → Text) (s : MemoryStore) (query : Text) (limit : ℕ)
    → (all (found_in lower (lower query)) (search lower s query limit) ≡ true)
      × IsDescending (rank lower (lower query)) (search lower s query limit)
      × (length (search lower s query limit) ≤ limit)
unfolding search
search_lem lower s query limit =
    let p = found_in lower (lower query) in
    let r = rank lower (lower query) in
    let ms = keep p (values s.tenants) in
    (
      all-take p limit _ (all-sort p r ms ∙ all-keep p (values s.tenants)),
      take-IsDescending r limit _ (sort-IsDescending r ms),
      omega (arith, length-take limit (sort_desc r ms)),
    )

-- When all matches fit, search leaves nothing out: each rank has exactly the stored tenants that
-- match with that rank, in insertion order.
pub search_complete :
    (lower : Text → Text) (s : MemoryStore) (query : Text) (limit k : ℕ)
    → length (keep (found_in lower (lower query)) (values s.tenants)) ≤ limit
    → at_key (rank lower (lower query)) k (search lower s query limit)
      ≡ at_key (rank lower (lower query)) k (keep (found_in lower (lower query)) (values s.tenants))
unfolding search
search_complete lower s query limit k h =
    let r = rank lower (lower query) in
    let ms = keep (found_in lower (lower query)) (values s.tenants) in
    ap (at_key r k) (take-all limit (sort_desc r ms) (omega (arith, length-sort r ms)))
    ∙ at_key-sort r k ms

-- When the scan limit covers the whole store, the search of TenantStore, which reads one page of
-- list(), finds as many tenants as the search of the in-memory store.
pub search-default :
    (lower : Text → Text) (s : MemoryStore) (query : Text) (limit scan : ℕ)
    → length s.tenants ≤ scan
    → length (TenantStore.search lower (list s 0 scan none) query limit)
      ≡ length (search lower s query limit)
unfolding search TenantStore.search list
search-default lower s query limit scan h =
    let p = found_in lower (lower query) in
    let made = λ (t : Tenant). t.created_at in
    let ts = values s.tenants in
    let whole =
      take-all scan (sort_desc made ts)
        (omega (arith, length-sort made ts, length-values s.tenants)) in
    rw whole (
      omega (
        arith,
        length-take limit (keep p (sort_desc made ts)),
        length-take limit (sort_desc (rank lower (lower query)) (keep p ts)),
        length-sort (rank lower (lower query)) (keep p ts),
        length-keep-sort p made ts,
      ))
