-- ===== src/Storage/Sql/Queries/Like.antt =====
-- storage/database.py: the pattern of search, and what it finds.
use fastapi_tenancy.Prelude.{
  ℕ, ◌≡◌, refl, ap, ap₂, ◌∙◌, Text, List, [], ◌∷◌, ◌++◌, Bool, true, false, ◌||◌, ◌&&◌, ◌==◌, arith,
  starts_with, is_infix, map, take, keep, if◌then◌else◌, Bool-cases, inl, inr,
}
use fastapi_tenancy.Prelude.Dict.{Dict, values}
use fastapi_tenancy.Storage.Sql.{Codec, TenantModel}
use fastapi_tenancy.Storage.Sql.Queries.{prefix_with, escaped, pattern_for, all_domain, search}

-- The characters that mean more than themselves in a pattern.
abbrev pub is_special : ℕ → Bool
is_special c = c == 92 || (c == b'%' || c == b'_')

-- SQL's LIKE with a backslash as the escape; `fold` is how it compares characters.
pub record IsLike (fold : ℕ → ℕ) (like : Text → Text → Bool) : Type 0 where
  pub ends : like [] [] ≡ true
  pub left_over : (x : ℕ) (xs : Text) → like [] (x ∷ xs) ≡ false
  pub any_end : (p : Text) → like (b'%' ∷ p) [] ≡ like p []
  pub any_more :
      (p : Text) (x : ℕ) (xs : Text)
      → like (b'%' ∷ p) (x ∷ xs) ≡ (like p (x ∷ xs) || like (b'%' ∷ p) xs)
  pub escape_end : (c : ℕ) (p : Text) → like (92 ∷ c ∷ p) [] ≡ false
  pub escape_more :
      (c : ℕ) (p : Text) (x : ℕ) (xs : Text)
      → like (92 ∷ c ∷ p) (x ∷ xs) ≡ (fold c == fold x && like p xs)
  pub literal_end : (c : ℕ) (p : Text) → is_special c ≡ false → like (c ∷ p) [] ≡ false
  pub literal_more :
      (c : ℕ) (p : Text) (x : ℕ) (xs : Text)
      → is_special c ≡ false
      → like (c ∷ p) (x ∷ xs) ≡ (fold c == fold x && like p xs)

escaped-cons :
    (c : ℕ) (s : Text)
    → escaped (c ∷ s) ≡ (if is_special c then 92 ∷ c ∷ escaped s else c ∷ escaped s)
unfolding escaped prefix_with
escaped-cons c s = ground arith

escaped-nil : escaped [] ≡ []
unfolding escaped prefix_with
escaped-nil = refl

module _ {fold : ℕ → ℕ} {like : Text → Text → Bool} (l : IsLike fold like) where
  like-any : (xs : Text) → like (b'%' ∷ []) xs ≡ true
  like-any [] = l.any_end [] ∙ l.ends
  like-any (x ∷ xs) = ground (arith, l.any_more [] x xs, l.left_over x xs, like-any xs)

  like-escaped :
      (s xs : Text) → like (escaped s ++ b'%' ∷ []) xs ≡ starts_with (map fold s) (map fold xs)
  unfolding starts_with
  like-escaped [] xs = rw escaped-nil (like-any xs)
  like-escaped (c ∷ s) [] = elim (Bool-cases (is_special c)) [
    | inl e ↦ rw (escaped-cons, e) (l.escape_end c _)
    | inr e ↦ rw (escaped-cons, e) (l.literal_end c _ e)
  ]
  like-escaped (c ∷ s) (x ∷ xs) = elim (Bool-cases (is_special c)) [
    | inl e ↦ rw (escaped-cons, e, l.escape_more, like-escaped s xs) refl
    | inr e ↦ rw (escaped-cons, e) (l.literal_more c _ x xs e ∙ rw (like-escaped s xs) refl)
  ]

  like-pattern :
      (lower : Text → Text) (query xs : Text)
      → like (pattern_for lower query) xs ≡ is_infix (map fold (lower query)) (map fold xs)
  unfolding pattern_for is_infix
  like-pattern lower query [] = l.any_end _ ∙ like-escaped (lower query) []
  like-pattern lower query (x ∷ xs) = ground (
    arith,
    l.any_more (escaped (lower query) ++ b'%' ∷ []) x xs,
    like-escaped (lower query) (x ∷ xs),
    like-pattern lower query xs,
  )

-- Whether the identifier or the name of a row contains a text, as `fold` compares characters.
abbrev pub mentions : {B : Type 0} → (ℕ → ℕ) → Text → TenantModel B → Bool
mentions fold q m =
    is_infix (map fold q) (map fold m.identifier) || is_infix (map fold q) (map fold m.name)

keep-same {ℓ} :
    {A : Type ℓ} (p q : A → Bool) (xs : List A) → ((x : A) → p x ≡ q x) → keep p xs ≡ keep q xs
keep-same p q [] h = refl
keep-same p q (x ∷ xs) h = ground (arith, h x, keep-same p q xs h)

-- For a LIKE that reads patterns as SQL does: search returns, in its order and up to the limit, the
-- tenants whose identifier or name contains the query in lower case as plain text, whatever
-- percent signs, underscores and backslashes stand in it.
pub search-mentions :
    {B : Type 0} (c : Codec B) (lower : Text → Text) (fold : ℕ → ℕ) (like : Text → Text → Bool)
    (by_identifier : List (TenantModel B) → List (TenantModel B)) (query : Text) (limit : ℕ)
    (rows : Dict (TenantModel B))
    → IsLike fold like
    → search c lower like by_identifier query limit rows
      ≡ all_domain c (take limit (by_identifier (keep (mentions fold (lower query)) (values rows))))
unfolding search
search-mentions c lower fold like by_identifier query limit rows l =
    ap (λ ms. all_domain c (take limit (by_identifier ms)))
      (keep-same _ _ (values rows) (λ m.
        ap₂ ◌||◌ (like-pattern l lower query m.identifier) (like-pattern l lower query m.name)))
