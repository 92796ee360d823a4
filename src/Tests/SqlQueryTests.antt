-- ===== src/Tests/SqlQueryTests.antt =====
-- The retries and the queries of the SQL store.
use fastapi_tenancy.Prelude.{
  ◌≡◌, refl, sym, ap, ◌∙◌, if◌then◌else◌, ℕ, zero, suc, Text, codes, List, some, [], ◌∷◌, Bool,
  true, false, ◌||◌, ◌&&◌, ◌==◌, keep, take, arith,
}
use fastapi_tenancy.Prelude.Dict.{Dict, values}
use fastapi_tenancy.Core.Types.{Json}
use fastapi_tenancy.Storage.Memory as Store
use fastapi_tenancy.Storage.Sql.{TenantModel}
use fastapi_tenancy.Storage.Sql.Rows.{table}
use fastapi_tenancy.Storage.Sql.Retries.{runs, conflicts, Server}
use fastapi_tenancy.Storage.Sql.Retries.Settled.{
  first_settled, update, EndsWith, update_metadata_settles,
}
use fastapi_tenancy.Storage.Sql.Queries.{all_domain, search}
use fastapi_tenancy.Storage.Sql.Queries.Like.{IsLike, is_special, mentions, search-mentions}
use fastapi_tenancy.Tests.Samples.{two_tenants}
use fastapi_tenancy.Tests.SqlTests.{direct, plan}

-- Refuses the first two transactions of every call.
abbrev busy : Server (Dict Json)
busy = record {
  fate = λ j. elim j [ zero ↦ conflicts | suc zero ↦ conflicts | suc (suc n) ↦ runs ];
  found = λ j. table direct two_tenants.tenants;
  merged = λ d e. some (Store.merge d e);
}

third_settles : first_settled busy.fate 25 0 ≡ some 2
unfolding first_settled
third_settles = refl

update_metadata_settles_example :
    EndsWith direct busy 9
      (codes "t1")
      plan
      (first_settled busy.fate 25 0)
      (update direct busy 9 (codes "t1") plan)
update_metadata_settles_example = update_metadata_settles direct busy 9 (codes "t1") plan

-- A LIKE that compares characters as they are.
data Token : Type 0 where
  any one : Token
  literal : ℕ → Token

token : ℕ → Token
token c = if c == b'%' then any else if c == b'_' then one else literal c

tokens : Text → List Token
tokens [] = []
tokens (c ∷ []) = token c ∷ []
tokens (c ∷ d ∷ p) = elim (c == 92) [
  | true ↦ literal d ∷ tokens p
  | false ↦ token c ∷ tokens (d ∷ p)
]

matches : List Token → Text → Bool
matches [] [] = true
matches [] (x ∷ xs) = false
matches (any ∷ p) [] = matches p []
matches (any ∷ p) (x ∷ xs) = matches p (x ∷ xs) || matches (any ∷ p) xs
matches (one ∷ p) [] = false
matches (one ∷ p) (x ∷ xs) = matches p xs
matches (literal c ∷ p) [] = false
matches (literal c ∷ p) (x ∷ xs) = c == x && matches p xs

like : Text → Text → Bool
like pattern text = matches (tokens pattern) text

tokens-cons : (c : ℕ) (p : Text) → (c == 92) ≡ false → tokens (c ∷ p) ≡ token c ∷ tokens p
unfolding tokens
tokens-cons c [] h = refl
tokens-cons c (d ∷ p) h = rw (h, tokens) refl

token-literal : (c : ℕ) → is_special c ≡ false → token c ≡ literal c
unfolding token
token-literal c h = ground (arith, h)

like-literal :
    (c : ℕ) (p xs : Text)
    → is_special c ≡ false
    → like (c ∷ p) xs ≡ matches (literal c ∷ tokens p) xs
unfolding like
like-literal c p xs h = rw (tokens-cons c p (ground (arith, h)), token-literal c h) refl

like-any : (p xs : Text) → like (b'%' ∷ p) xs ≡ matches (any ∷ tokens p) xs
unfolding like token
like-any p xs = rw (tokens-cons b'%' p refl) refl

like-IsLike : IsLike (λ c. c) like
unfolding like matches tokens
like-IsLike = record {
  ends = refl;
  left_over = λ x xs. refl;
  any_end = λ p. like-any p [];
  any_more = λ p x xs.
      like-any p (x ∷ xs) ∙ ap (λ b. matches (tokens p) (x ∷ xs) || b) (sym (like-any p xs));
  escape_end = λ c p. refl;
  escape_more = λ c p x xs. refl;
  literal_end = λ c p h. like-literal c p [] h;
  literal_more = λ c p x xs h. like-literal c p (x ∷ xs) h;
}

-- A query with a percent sign finds no tenant whose name has none.
abbrev rows : Dict (TenantModel (Dict Json))
rows = table direct two_tenants.tenants

search-mentions_example :
    search direct (λ s. s) like (λ ms. ms) (codes "%") 10 rows
    ≡ all_domain direct (take 10 (keep (mentions (λ c. c) (codes "%")) (values rows)))
search-mentions_example =
    search-mentions direct (λ s. s) (λ c. c) like (λ ms. ms) (codes "%") 10 rows like-IsLike
