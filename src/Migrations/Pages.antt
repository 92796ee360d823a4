-- ===== src/Migrations/Pages.antt =====
-- migrations/manager.py: the pages that upgrade_all and downgrade_all go through.
use mathlib.Core.List.{append-nil, append_assoc}
use fastapi_tenancy.Prelude.{
  ℕ, zero, suc, ◌+◌, ◌≤◌, ◌<◌, ◌≡◌, refl, sym, ap, ◌∙◌, List, [], ◌∷◌, ◌++◌, map, length, take,
  drop, length-take, length-drop, some, true, ltb, arith, inl, inr, Bool-cases,
}
use fastapi_tenancy.Prelude.Dict.{values}
use fastapi_tenancy.Prelude.Sorting.{sort_desc, length-sort}
use fastapi_tenancy.Core.Types.{Tenant, TenantStatus}
use fastapi_tenancy.Storage.Memory.{MemoryStore, list, count, filter_status}
use fastapi_tenancy.Storage.Memory.Listing.{take-all, drop-drop}
use fastapi_tenancy.Migrations.{MigrationResult, is_nil, migrate_loop, migrate_all}

module _ (all : List Tenant) (one : Tenant → MigrationResult) (n : ℕ) where
  abbrev paged : ℕ → ℕ → List Tenant
  paged skip limit = take limit (drop skip all)

  map-append : (xs ys : List Tenant) → map one (xs ++ ys) ≡ map one xs ++ map one ys
  map-append [] ys = refl
  map-append (x ∷ xs) ys = ap (◌∷◌ (one x)) (map-append xs ys)

  take-drop : (k : ℕ) (xs : List Tenant) → take k xs ++ drop k xs ≡ xs
  take-drop zero xs = refl
  take-drop (suc k) [] = refl
  take-drop (suc k) (x ∷ xs) = ap (◌∷◌ x) (take-drop k xs)

  length-nil : (xs : List Tenant) → length xs ≡ 0 → xs ≡ []
  length-nil [] h = refl
  length-nil (x ∷ xs) h = absurd (omega arith)

  is_nil-length : (xs : List Tenant) → is_nil xs ≡ true → xs ≡ []
  is_nil-length [] h = refl
  is_nil-length (x ∷ xs) h = cc

  loop-ends :
      (fuel skip : ℕ) (results : List MigrationResult)
      → 1 ≤ n
      → length (drop skip all) < fuel
      → migrate_loop fuel paged one n skip results ≡ some (results ++ map one (drop skip all))
  unfolding migrate_loop
  loop-ends zero skip results h f = absurd (omega arith)
  loop-ends (suc fuel) skip results h f =
      let rest = drop skip all in
      let page = take n rest in
      let size = length-take n rest in
      elim (Bool-cases (is_nil page)) [
        | inl e ↦
            let none_left : rest ≡ [] =
              length-nil rest (omega (arith, size, ap length (is_nil-length page e))) in
            rw (e, none_left) (ap some (sym (append-nil results)))
        | inr e ↦ elim (Bool-cases (ltb (length page) n)) [
          | inl g ↦
              let last : page ≡ rest = take-all n rest (ground (arith, size, g)) in
              rw (e, g) (ap (λ xs. some (results ++ map one xs)) last)
          | inr g ↦
              let full : length page ≡ n = ground (arith, size, g) in
              let left : drop (skip + length page) all ≡ drop n rest =
                drop-drop skip (length page) all ∙ ap (λ k. drop k rest) full in
              let shorter : length (drop (skip + length page) all) < fuel =
                omega (arith, ap length left, length-drop n rest, size, full, f, h) in
              rw (e, g)
                (loop-ends fuel (skip + length page) (results ++ map one page) h shorter
                  ∙ ap some (
                      append_assoc results (map one page) (map one (drop (skip + length page) all))
                      ∙ ap (λ xs. results ++ xs)
                          (sym (map-append page (drop (skip + length page) all))
                            ∙ ap (map one) (ap (λ xs. page ++ xs) left ∙ take-drop n rest))))
        ]
      ]

-- The loop ends, with one round of fuel more than there are active tenants: while the store does not
-- change, upgrade_all and downgrade_all with a page size of at least 1 give one result for each active
-- tenant, in the order of the store's list.
pub migrate_all-map :
    (s : MemoryStore) (one : Tenant → MigrationResult) (page_size fuel : ℕ)
    → 1 ≤ page_size
    → count s (some TenantStatus.active) < fuel
    → migrate_all fuel (λ skip limit. list s skip limit (some TenantStatus.active)) one page_size
      ≡ some (
          map one (
            sort_desc
              (λ t. t.created_at)
              (filter_status (some TenantStatus.active) (values s.tenants))))
unfolding migrate_all list count
migrate_all-map s one page_size fuel h f =
    let tenants = filter_status (some TenantStatus.active) (values s.tenants) in
    loop-ends (sort_desc (λ (t : Tenant). t.created_at) tenants) one page_size fuel 0 [] h
      (omega (arith, f, length-sort (λ (t : Tenant). t.created_at) tenants))
