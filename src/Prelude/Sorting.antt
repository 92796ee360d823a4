-- ===== src/Prelude/Sorting.antt =====
-- Python's list.sort(key=..., reverse=True) with a numeric key: descending, and stable.
use Prim.Native.Nat.{ℕ, suc, ◌≤◌}
use mathlib.Core.Path.{◌≡◌, refl, ◌∙◌}
use mathlib.Core.List.{List, [], ◌∷◌}
use native.Mathlib.Omega.{arith}
use fastapi_tenancy.Prelude.Tests.{ltb, ◌==◌, if◌then◌else◌}
use fastapi_tenancy.Prelude.Lists.{length, keep}

module _ {ℓ} {A : Type ℓ} (key : A → ℕ) where
  unfoldable pub insert : A → List A → List A
  insert x [] = x ∷ []
  insert x (y ∷ ys) = let rest = insert x ys in if ltb (key x) (key y) then y ∷ rest else x ∷ y ∷ ys

  unfoldable pub sort_desc : List A → List A
  unfolding insert
  sort_desc [] = []
  sort_desc (x ∷ xs) = insert x (sort_desc xs)

  -- Each key is at least the next.
  abbrev pub IsDescending : List A → Type 0
  IsDescending [] = Unit
  IsDescending (x ∷ []) = Unit
  IsDescending (x ∷ y ∷ ys) = (key y ≤ key x) × IsDescending (y ∷ ys)

  -- The elements with one key, in order.
  abbrev pub at_key : ℕ → List A → List A
  at_key k = keep (λ x. key x == k)

  insert-IsDescending : (x : A) (xs : List A) → IsDescending xs → IsDescending (insert x xs)
  unfolding insert
  insert-IsDescending x [] h = tt
  insert-IsDescending x (y ∷ []) h = ground arith
  insert-IsDescending x (y ∷ z ∷ ys) h = ground (arith, insert-IsDescending x (z ∷ ys))

  pub sort-IsDescending : (xs : List A) → IsDescending (sort_desc xs)
  unfolding sort_desc
  sort-IsDescending [] = tt
  sort-IsDescending (x ∷ xs) = insert-IsDescending x (sort_desc xs) (sort-IsDescending xs)

  at_key-insert : (k : ℕ) (x : A) (xs : List A) → at_key k (insert x xs) ≡ at_key k (x ∷ xs)
  unfolding insert
  at_key-insert k x [] = refl
  at_key-insert k x (y ∷ ys) = ground (arith, at_key-insert k x ys)

  -- Sorting changes no class of equal keys, nor the order within one.
  pub at_key-sort : (k : ℕ) (xs : List A) → at_key k (sort_desc xs) ≡ at_key k xs
  unfolding sort_desc
  at_key-sort k [] = refl
  at_key-sort k (x ∷ xs) = at_key-insert k x (sort_desc xs) ∙ ground (arith, at_key-sort k xs)

  length-insert : (x : A) (xs : List A) → length (insert x xs) ≡ suc (length xs)
  unfolding insert
  length-insert x [] = refl
  length-insert x (y ∷ ys) = ground (arith, length-insert x ys)

  pub length-sort : (xs : List A) → length (sort_desc xs) ≡ length xs
  unfolding sort_desc
  length-sort [] = refl
  length-sort (x ∷ xs) = omega (arith, length-insert x (sort_desc xs), length-sort xs)
