-- ===== src/Storage/Sql.antt =====
-- storage/database.py: TenantModel and SQLAlchemyTenantStore, over the rows of the table by their
-- primary key. The database carries statements out as SQL documents them and refuses only what breaks
-- a constraint. The JSON of the metadata is a parameter. A method is one transaction;
-- update_metadata_generic is _update_metadata_generic, for dialects other than PostgreSQL, whose merge
-- is in Retries; the methods on several rows are in Queries.
pub mod Rows
pub mod Alike
pub mod Retries
pub mod Queries
pub mod Stored
use fastapi_tenancy.Prelude.{
  ℕ, Text, codes, text_eq, List, [], ◌∷◌, Option, none, some, Bool, true, false, not, ◌||◌, ◌&&◌,
  if◌then◌else◌,
}
use fastapi_tenancy.Prelude.Dict.{Dict, get, put, del}
use fastapi_tenancy.Core.Types.{
  Tenant, TenantStatus, IsolationStrategy, Json, schema, database, rls, hybrid, status_value,
}
use fastapi_tenancy.Core.Exceptions.{
  Result, ok, raise, tenant_not_found, value_error, key_error, tenancy, ◌>>=◌,
}
use fastapi_tenancy.Storage.Memory.{merge}

-- json.dumps and json.loads; nothing for an error of the latter.
pub record Codec (B : Type 0) : Type 0 where
  pub dumps : Dict Json → B
  pub loads : B → Option (Dict Json)

-- A row; a timestamp counts as UTC, with or without its zone.
pub record TenantModel (B : Type 0) : Type 0 where
  pub id : Text
  pub identifier : Text
  pub name : Text
  pub status : Text
  pub isolation_strategy : Option Text
  pub database_url : Option Text
  pub schema_name : Option Text
  pub tenant_metadata : B
  pub created_at : ℕ
  pub updated_at : ℕ

unfoldable pub strategy_value : IsolationStrategy → Text
strategy_value schema = codes "schema"
strategy_value database = codes "database"
strategy_value rls = codes "rls"
strategy_value hybrid = codes "hybrid"

-- TenantStatus(text), which raises ValueError for any other text.
unfoldable pub status_of : Text → Result TenantStatus
unfolding status_value
status_of s =
    if text_eq s (status_value TenantStatus.active)
    then ok TenantStatus.active
    else if text_eq s (status_value TenantStatus.suspended)
    then ok TenantStatus.suspended
    else if text_eq s (status_value TenantStatus.deleted)
    then ok TenantStatus.deleted
    else if text_eq s (status_value TenantStatus.provisioning)
    then ok TenantStatus.provisioning
    else raise value_error

-- What Pydantic makes of the text of a strategy.
unfoldable pub strategy_of : Option Text → Result (Option IsolationStrategy)
unfolding strategy_value
strategy_of none = ok none
strategy_of (some s) =
    if text_eq s (strategy_value schema)
    then ok (some schema)
    else if text_eq s (strategy_value database)
    then ok (some database)
    else if text_eq s (strategy_value rls)
    then ok (some rls)
    else if text_eq s (strategy_value hybrid)
    then ok (some hybrid)
    else raise value_error

abbrev pub strategy_text : Option IsolationStrategy → Option Text
strategy_text none = none
strategy_text (some k) = some (strategy_value k)

-- Corrupt metadata count as none.
abbrev pub or_empty : Option (Dict Json) → Dict Json
or_empty none = []
or_empty (some d) = d

module _ {B : Type 0} where
  unfoldable pub to_domain : Codec B → TenantModel B → Result Tenant
  unfolding status_of strategy_of
  to_domain c m = do
    status ← status_of m.status
    strategy ← strategy_of m.isolation_strategy
    ok (record {
      id = m.id;
      identifier = m.identifier;
      name = m.name;
      status = status;
      isolation_strategy = strategy;
      metadata = or_empty (c.loads m.tenant_metadata);
      created_at = m.created_at;
      updated_at = m.updated_at;
      database_url = m.database_url;
      schema_name = m.schema_name;
    })

  -- The model that create builds of a tenant.
  unfoldable pub of_domain : Codec B → Tenant → TenantModel B
  unfolding status_value strategy_value
  of_domain c t = record {
    id = t.id;
    identifier = t.identifier;
    name = t.name;
    status = status_value t.status;
    isolation_strategy = strategy_text t.isolation_strategy;
    database_url = t.database_url;
    schema_name = t.schema_name;
    tenant_metadata = c.dumps t.metadata;
    created_at = t.created_at;
    updated_at = t.updated_at;
  }

  -- WHERE identifier = :identifier
  unfoldable pub with_identifier : Text → Dict (TenantModel B) → Option (TenantModel B)
  with_identifier i [] = none
  with_identifier i ((k, m) ∷ rows) =
      let rest = with_identifier i rows in if text_eq m.identifier i then some m else rest

  abbrev pub found_or : Codec B → Text → Option (TenantModel B) → Result Tenant
  found_or c key none = raise (tenant_not_found (some key))
  found_or c key (some m) = to_domain c m

  unfoldable pub get_by_id : Codec B → Text → Dict (TenantModel B) → Result Tenant
  unfolding to_domain
  get_by_id c tenant_id rows = found_or c tenant_id (get tenant_id rows)

  unfoldable pub get_by_identifier : Codec B → Text → Dict (TenantModel B) → Result Tenant
  unfolding to_domain with_identifier
  get_by_identifier c identifier rows = found_or c identifier (with_identifier identifier rows)

  unfoldable pub exists : Text → Dict (TenantModel B) → Bool
  exists tenant_id rows = elim (get tenant_id rows) [ none ↦ false | some m ↦ true ]

  -- The primary key and the unique identifier: an insertion that breaks one is rolled back.
  unfoldable pub create :
      Codec B → Tenant → Dict (TenantModel B) → Result Tenant × Dict (TenantModel B)
  unfolding of_domain to_domain with_identifier
  create c t rows = elim (get t.id rows) [
    | some m ↦ (raise value_error, rows)
    | none ↦ elim (with_identifier t.identifier rows) [
      | some m ↦ (raise value_error, rows)
      | none ↦ (to_domain c (of_domain c t), put t.id (of_domain c t) rows)
    ]
  ]

  unfoldable pub delete : Text → Dict (TenantModel B) → Result (Unit {0}) × Dict (TenantModel B)
  delete tenant_id rows = elim (get tenant_id rows) [
    | none ↦ (raise (tenant_not_found (some tenant_id)), rows)
    | some m ↦ (ok tt, del tenant_id rows)
  ]

  -- The commit of a changed row, unless to_domain raised within the transaction, which rolls back.
  abbrev pub committed :
      Result Tenant
      → Dict (TenantModel B)
      → Dict (TenantModel B)
      → Result Tenant × Dict (TenantModel B)
  committed (ok t) rows before = (ok t, rows)
  committed (raise e) rows before = (raise tenancy, before)

  unfoldable pub set_status :
      Codec B
      → ℕ
      → Text
      → TenantStatus
      → Dict (TenantModel B)
      → Result Tenant × Dict (TenantModel B)
  unfolding to_domain status_value
  set_status c now tenant_id status rows = elim (get tenant_id rows) [
    | none ↦ (raise (tenant_not_found (some tenant_id)), rows)
    | some m ↦
        let m' : TenantModel B = record m { status = status_value status; updated_at = now } in
        committed (to_domain c m') (put tenant_id m' rows) rows
  ]

  -- to_domain after the transaction.
  unfoldable pub update_metadata_generic :
      Codec B → ℕ → Text → Dict Json → Dict (TenantModel B) → Result Tenant × Dict (TenantModel B)
  unfolding to_domain
  update_metadata_generic c now tenant_id metadata rows = elim (get tenant_id rows) [
    | none ↦ (raise (tenant_not_found (some tenant_id)), rows)
    | some m ↦
        let merged = merge (or_empty (c.loads m.tenant_metadata)) metadata in
        let m' : TenantModel B = record m { tenant_metadata = c.dumps merged; updated_at = now } in
        (to_domain c m', put tenant_id m' rows)
  ]

  -- The changed row, its created_at kept.
  abbrev pub updated : Codec B → ℕ → Tenant → TenantModel B → TenantModel B
  updated c now t m = record m {
    identifier = t.identifier;
    name = t.name;
    status = status_value t.status;
    isolation_strategy = strategy_text t.isolation_strategy;
    database_url = t.database_url;
    schema_name = t.schema_name;
    tenant_metadata = c.dumps t.metadata;
    updated_at = now;
  }

  -- to_domain runs before the commit, which finds an identifier that another row has.
  unfoldable pub update :
      Codec B → ℕ → Tenant → Dict (TenantModel B) → Result Tenant × Dict (TenantModel B)
  unfolding to_domain with_identifier status_value strategy_value
  update c now t rows = elim (get t.id rows) [
    | none ↦ (raise (tenant_not_found (some t.id)), rows)
    | some m ↦ elim (with_identifier t.identifier (del t.id rows)) [
      | none ↦ committed (to_domain c (updated c now t m)) (put t.id (updated c now t m) rows) rows
      | some other ↦ elim (to_domain c (updated c now t m)) [
        | raise e ↦ (raise tenancy, rows)
        | ok u ↦ (raise value_error, rows)
      ]
    ]
  ]
