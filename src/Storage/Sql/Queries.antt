-- ===== src/Storage/Sql/Queries.antt =====
-- storage/database.py: the methods on several rows. The order in which the database gives rows is a
-- parameter, and so are LIKE, with a backslash as its escape, and Python's lower. An UPDATE and
-- the SELECT after it give the rows that an UPDATE with RETURNING gives.
pub mod Like
pub mod Batch
use fastapi_tenancy.Prelude.{
  ℕ, Text, codes, text_eq, contains, List, [], ◌∷◌, ◌++◌, Option, none, some, Bool, true, false,
  ◌||◌, ◌==◌, keep, take, drop, length, if◌then◌else◌,
}
use fastapi_tenancy.Prelude.Dict.{Dict, values}
use fastapi_tenancy.Core.Types.{Tenant, TenantStatus, status_value}
use fastapi_tenancy.Core.Exceptions.{Result, ok, raise, ◌>>=◌}
use fastapi_tenancy.Storage.Sql.{Codec, TenantModel, to_domain}

unfoldable pub is_nil : List Text → Bool
is_nil [] = true
is_nil (i ∷ ids) = false

-- str.replace of one character, in the order of the source
unfoldable pub prefix_with : ℕ → ℕ → Text → Text
prefix_with e c [] = []
prefix_with e c (x ∷ s) = let rest = prefix_with e c s in if x == c then e ∷ x ∷ rest else x ∷ rest

unfoldable pub escaped : Text → Text
unfolding prefix_with
escaped s = prefix_with 92 b'_' (prefix_with 92 b'%' (prefix_with 92 92 s))

unfoldable pub pattern_for : (Text → Text) → Text → Text
unfolding escaped
pattern_for lower query = b'%' ∷ (escaped (lower query) ++ b'%' ∷ [])

module _ {B : Type 0} where
  -- [m.to_domain() for m in models]
  unfoldable pub all_domain : Codec B → List (TenantModel B) → Result (List Tenant)
  unfolding to_domain
  all_domain c [] = ok []
  all_domain c (m ∷ models) = do t ← to_domain c m; ts ← all_domain c models; ok (t ∷ ts)

  -- WHERE status = :status, when there is one
  abbrev pub with_status : Option TenantStatus → List (TenantModel B) → List (TenantModel B)
  with_status none models = models
  with_status (some st) models = keep (λ m. text_eq m.status (status_value st)) models

  -- `newest` is ORDER BY created_at DESC.
  unfoldable pub list :
      Codec B
      → (List (TenantModel B) → List (TenantModel B))
      → ℕ
      → ℕ
      → Option TenantStatus
      → Dict (TenantModel B)
      → Result (List Tenant)
  unfolding all_domain status_value
  list c newest skip limit status rows =
      all_domain c (take limit (drop skip (newest (with_status status (values rows)))))

  unfoldable pub count : Option TenantStatus → Dict (TenantModel B) → ℕ
  unfolding status_value
  count status rows = length (with_status status (values rows))

  unfoldable pub get_by_ids : Codec B → List Text → Dict (TenantModel B) → Result (List Tenant)
  unfolding all_domain contains is_nil
  get_by_ids c ids rows =
      if is_nil ids then ok [] else all_domain c (keep (λ m. contains ids m.id) (values rows))

  abbrev pub where_clause : (Text → Text → Bool) → Text → TenantModel B → Bool
  where_clause like pattern m = like pattern m.identifier || like pattern m.name

  -- `by_identifier` is ORDER BY identifier.
  unfoldable pub search :
      Codec B
      → (Text → Text)
      → (Text → Text → Bool)
      → (List (TenantModel B) → List (TenantModel B))
      → Text
      → ℕ
      → Dict (TenantModel B)
      → Result (List Tenant)
  unfolding all_domain pattern_for
  search c lower like by_identifier query limit rows = all_domain c (
      take limit (by_identifier (keep (where_clause like (pattern_for lower query)) (values rows))))

  -- UPDATE tenants SET status = ..., updated_at = ... WHERE id IN (...)
  unfoldable pub set_all :
      ℕ → List Text → TenantStatus → Dict (TenantModel B) → Dict (TenantModel B)
  unfolding contains status_value
  set_all now ids status [] = []
  set_all now ids status ((k, m) ∷ rows) =
      let rest = set_all now ids status rows in
      let m' : TenantModel B = record m { status = status_value status; updated_at = now } in
      if contains ids m.id then (k, m') ∷ rest else (k, m) ∷ rest

  -- An error of to_domain rolls the transaction back.
  abbrev pub committed_all :
      Result (List Tenant)
      → Dict (TenantModel B)
      → Dict (TenantModel B)
      → Result (List Tenant) × Dict (TenantModel B)
  committed_all (ok ts) rows before = (ok ts, rows)
  committed_all (raise e) rows before = (raise e, before)

  unfoldable pub bulk_update_status :
      Codec B
      → ℕ
      → List Text
      → TenantStatus
      → Dict (TenantModel B)
      → Result (List Tenant) × Dict (TenantModel B)
  unfolding all_domain set_all is_nil contains
  bulk_update_status c now ids status rows =
      if is_nil ids
      then (ok [], rows)
      else (let rows' = set_all now ids status rows in
          committed_all (all_domain c (keep (λ m. contains ids m.id) (values rows'))) rows' rows)
