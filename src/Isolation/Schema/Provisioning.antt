-- ===== src/Isolation/Schema/Provisioning.antt =====
-- isolation/schema.py: initialize_tenant, destroy_tenant and verify_isolation by dialect.
use fastapi_tenancy.Prelude.{
  Text, codes, starts_with, List, [], ◌∷◌, ◌++◌, keep, Option, none, some, Bool, true, false, ◌||◌,
  if◌then◌else◌,
}
use fastapi_tenancy.Core.Types.{Tenant}
use fastapi_tenancy.Core.Exceptions.{Result, ok, raise, isolation, ◌>>=◌}
use fastapi_tenancy.Core.Config.{TenancyConfig}
use fastapi_tenancy.Utils.Validation.{validate_schema_name}
use fastapi_tenancy.Utils.DbCompat.{
  DbDialect, postgresql, mysql, mssql, make_table_prefix, supports_native_schemas,
}
use fastapi_tenancy.Isolation.Schema.{
  Table, Action, executed, executed_with, Database, Run, attempt, schema_name,
  validated_schema_name, bracketed, drop_schema_sql, drop_table_sql, drop_tables_sql,
  initialize_schema, initialize_mssql_schema, initialize_prefix, with_schema,
}

-- `delegate` is what the database provider does for MySQL.
unfoldable pub initialize_tenant :
    (Text → Text) → Run → Database → DbDialect → TenancyConfig → Tenant → Option (List Table) → Run
unfolding initialize_schema initialize_mssql_schema initialize_prefix validated_schema_name
initialize_tenant lower delegate db mysql config t metadata = delegate
initialize_tenant lower delegate db mssql config t metadata =
    with_schema (validated_schema_name config t)
      (λ schema. initialize_mssql_schema db schema metadata)
initialize_tenant lower delegate db postgresql config t metadata =
    with_schema (validated_schema_name config t) (λ schema. initialize_schema db schema metadata)
initialize_tenant lower delegate db dialect config t metadata =
    initialize_prefix db (make_table_prefix lower t.identifier) metadata

abbrev pub or_isolation : Bool × List Action → Run
or_isolation (true, tried) = (ok tt, tried)
or_isolation (false, tried) = (raise isolation, tried)

-- The loop over the tables with the prefix: a name that is not safe raises.
unfoldable pub drop_tables : Database → List Text → Bool × List Action
unfolding drop_table_sql
drop_tables db [] = (true, [])
drop_tables db (table ∷ rest) =
    let drop = executed (drop_table_sql table) in
    let (fine, tried) = drop_tables db rest in
    if validate_schema_name table
    then (if db.succeeds drop then (fine, drop ∷ tried) else (false, drop ∷ []))
    else (false, [])

unfoldable pub destroy_prefix : Database → Text → Run
unfolding drop_tables
destroy_prefix db prefix = elim db.table_names [
  | none ↦ (raise isolation, [])
  | some names ↦ or_isolation (drop_tables db (keep (starts_with prefix) names))
]

unfoldable pub destroy_tenant :
    (Text → Text) → Run → Database → DbDialect → TenancyConfig → Tenant → Run
unfolding attempt drop_schema_sql bracketed validated_schema_name destroy_prefix
destroy_tenant lower delegate db mysql config t = delegate
destroy_tenant lower delegate db mssql config t =
    with_schema (validated_schema_name config t) (λ schema. or_isolation (
      attempt db (
        executed_with drop_tables_sql schema
        ∷ executed (codes "DROP SCHEMA " ++ bracketed schema)
        ∷ [])))
destroy_tenant lower delegate db postgresql config t =
    with_schema (validated_schema_name config t)
      (λ schema. or_isolation (attempt db (executed (drop_schema_sql schema) ∷ [])))
destroy_tenant lower delegate db dialect config t =
    destroy_prefix db (make_table_prefix lower t.identifier)

-- A question that fails is answered with False.
abbrev pub or_false : Option Bool → Bool
or_false none = false
or_false (some b) = b

-- any(t.startswith(prefix) for t in tables)
unfoldable pub any_with : Text → List Text → Bool
any_with prefix [] = false
any_with prefix (t ∷ ts) = let later = any_with prefix ts in starts_with prefix t || later

unfoldable pub has_prefixed : Text → Option (List Text) → Bool
unfolding any_with
has_prefixed prefix none = false
has_prefixed prefix (some names) = any_with prefix names

unfoldable pub verify_isolation :
    (Text → Text) → Database → DbDialect → TenancyConfig → Tenant → Result Bool
unfolding schema_name has_prefixed
verify_isolation lower db dialect config t =
    if supports_native_schemas dialect
    then (do name ← schema_name config t; ok (or_false (db.schema_exists name)))
    else ok (has_prefixed (make_table_prefix lower t.identifier) db.table_names)
