-- ===== src/Isolation/Schema.antt =====
-- isolation/schema.py: SchemaIsolationProvider. The database is a parameter: which actions succeed,
-- and what it answers to a question. A method gives its result and the actions that it tried, in
-- order. The delegate for MySQL is a parameter, too; the queries of the application are left out.
pub mod Provisioning
pub mod Quoting
pub mod Sessions
pub mod Collision
use fastapi_tenancy.Prelude.{
  ℕ, Text, codes, starts_with, List, [], ◌∷◌, ◌++◌, map, keep, Option, none, some, Bool, true,
  false, if◌then◌else◌,
}
use fastapi_tenancy.Prelude.Dict.{Dict, get}
use fastapi_tenancy.Core.Types.{Tenant}
use fastapi_tenancy.Core.Exceptions.{Result, ok, raise, isolation, ◌>>=◌}
use fastapi_tenancy.Core.Config.{TenancyConfig, get_schema_name}
use fastapi_tenancy.Utils.Validation.{assert_safe_schema_name, validate_schema_name}
use fastapi_tenancy.Utils.DbCompat.{
  DbDialect, postgresql, sqlite, mysql, mssql, unknown, make_table_prefix, supports_native_schemas,
}

-- A table of the application's metadata: its name, and the tables and columns that it refers to.
pub record Table : Type 0 where
  pub name : Text
  pub foreign_keys : List (Text × Text)

-- A statement, one with a bound value, one on the clean-up connection, and create_all, within a
-- schema or not.
pub data Action : Type 0 where
  executed : Text → Action
  executed_with : Text → Text → Action
  cleaned_up : Text → Action
  created : Option Text → List Table → Action

pub record Database : Type 0 where
  pub succeeds : Action → Bool
  -- nothing where the question fails
  pub schema_exists : Text → Option Bool
  pub table_names : Option (List Text)

abbrev pub Run : Type 0
Run = Result (Unit {0}) × List Action

-- The actions up to the first that fails.
unfoldable pub attempt : Database → List Action → Bool × List Action
attempt db [] = (true, [])
attempt db (a ∷ rest) =
    let (fine, tried) = attempt db rest in
    if db.succeeds a then (fine, a ∷ tried) else (false, a ∷ [])

unfoldable pub schema_name : TenancyConfig → Tenant → Result Text
schema_name config t = elim t.schema_name [
  | some (c ∷ name) ↦ ok (c ∷ name)
  | _ ↦ get_schema_name config t.identifier
]

-- A ValueError of assert_safe_schema_name becomes an IsolationError.
unfoldable pub validated_schema_name : TenancyConfig → Tenant → Result Text
unfolding schema_name
validated_schema_name config t = do
  name ← schema_name config t
  if validate_schema_name name then ok name else raise isolation

unfoldable pub quoted : Text → Text
quoted name = codes "\"" ++ (name ++ codes "\"")

unfoldable pub bracketed : Text → Text
bracketed name = codes "[" ++ (name ++ codes "]")

unfoldable pub set_path_sql : Text → Text
unfolding quoted
set_path_sql schema = codes "SET LOCAL search_path TO " ++ (quoted schema ++ codes ", public")

unfoldable pub create_schema_sql : Text → Text
unfolding quoted
create_schema_sql schema = codes "CREATE SCHEMA IF NOT EXISTS " ++ quoted schema

unfoldable pub drop_schema_sql : Text → Text
unfolding quoted
drop_schema_sql schema = codes "DROP SCHEMA IF EXISTS " ++ (quoted schema ++ codes " CASCADE")

unfoldable pub drop_table_sql : Text → Text
unfolding quoted
drop_table_sql table = codes "DROP TABLE IF EXISTS " ++ quoted table

abbrev pub find_schema_sql : Text
find_schema_sql =
    codes "SELECT schema_name FROM information_schema.schemata WHERE schema_name = :name"

-- The batch that drops the tables of the schema :schema.
abbrev pub drop_tables_sql : Text
drop_tables_sql =
    codes "DECLARE @sql NVARCHAR(MAX) = N'';SELECT @sql = @sql  + N'DROP TABLE '"
    ++ (codes "  + QUOTENAME(TABLE_SCHEMA)  + N'.'  + QUOTENAME(TABLE_NAME)  + N';' "
        ++ (codes "FROM INFORMATION_SCHEMA.TABLES WHERE TABLE_SCHEMA = :schema "
            ++ codes "  AND TABLE_TYPE = N'BASE TABLE';IF LEN(@sql) > 0 EXEC sp_executesql @sql;"))

-- What get_session yields: the delegate's session, one that sets the search path at the start of
-- every transaction, one that maps tables into a schema, or one with a table prefix.
pub data Session : Type 0 where
  delegated : Session
  on_search_path : Text → Session
  translated : Text → Session
  prefixed : Text → Session

unfoldable pub get_session : (Text → Text) → DbDialect → TenancyConfig → Tenant → Result Session
unfolding validated_schema_name set_path_sql
get_session lower mysql config t = ok delegated
get_session lower mssql config t = do
  schema ← validated_schema_name config t
  ok (translated schema)
get_session lower postgresql config t = do
  schema ← validated_schema_name config t
  ok (on_search_path (set_path_sql schema))
get_session lower dialect config t = ok (prefixed (make_table_prefix lower t.identifier))

-- After a failure the schema is dropped on another connection, and the error is wrapped.
unfoldable pub or_clean_up : Text → Bool × List Action → Run
or_clean_up drop_sql (true, tried) = (ok tt, tried)
or_clean_up drop_sql (false, tried) = (raise isolation, tried ++ cleaned_up drop_sql ∷ [])

abbrev pub schema_actions : Text → Option (List Table) → List Action
schema_actions schema none = executed (create_schema_sql schema) ∷ []
schema_actions schema (some tables) =
    executed (create_schema_sql schema) ∷ executed (set_path_sql schema) ∷ created none tables ∷ []

unfoldable pub initialize_schema : Database → Text → Option (List Table) → Run
unfolding attempt or_clean_up create_schema_sql set_path_sql drop_schema_sql
initialize_schema db schema metadata =
    or_clean_up (drop_schema_sql schema) (attempt db (schema_actions schema metadata))

-- CREATE SCHEMA, unless the question found the schema.
abbrev pub unless_exists : Text → Bool → List Action
unless_exists schema true = []
unless_exists schema false = executed (codes "CREATE SCHEMA " ++ bracketed schema) ∷ []

abbrev pub tables_within : Text → Option (List Table) → List Action
tables_within schema none = []
tables_within schema (some tables) = created (some schema) tables ∷ []

unfoldable pub initialize_mssql_schema : Database → Text → Option (List Table) → Run
unfolding attempt or_clean_up bracketed
initialize_mssql_schema db schema metadata =
    let question = executed_with find_schema_sql schema in
    let drop_sql = codes "DROP SCHEMA " ++ bracketed schema in
    elim (db.schema_exists schema) [
      | none ↦ or_clean_up drop_sql (false, question ∷ [])
      | some found ↦
          let (fine, tried) =
            attempt db (unless_exists schema found ++ tables_within schema metadata) in
          or_clean_up drop_sql (fine, question ∷ tried)
    ]

-- The table that a reference names, by name_map.get(name, name).
abbrev pub or_same : Text → Option Text → Text
or_same name none = name
or_same name (some new) = new

unfoldable pub name_map : Text → List Table → Dict Text
name_map prefix [] = []
name_map prefix (t ∷ ts) = (t.name, prefix ++ t.name) ∷ name_map prefix ts

unfoldable pub prefixed_table : Text → Dict Text → Table → Table
prefixed_table prefix names t = record {
  name = prefix ++ t.name;
  foreign_keys = map (λ k. (or_same k.0 (get k.0 names), k.1)) t.foreign_keys;
}

unfoldable pub initialize_prefix : Database → Text → Option (List Table) → Run
unfolding attempt name_map prefixed_table
initialize_prefix db prefix none = (ok tt, [])
initialize_prefix db prefix (some tables) =
    let (fine, tried) =
      attempt db
        (created none (map (prefixed_table prefix (name_map prefix tables)) tables) ∷ []) in
    (if fine then ok tt else raise isolation, tried)

-- With the name of the schema, or the error that there is none.
abbrev pub with_schema : Result Text → (Text → Run) → Run
with_schema (raise e) run = (raise e, [])
with_schema (ok schema) run = run schema
