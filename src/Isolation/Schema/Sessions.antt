-- ===== src/Isolation/Schema/Sessions.antt =====
-- isolation/schema.py: the sessions of SchemaIsolationProvider. `opens` says whether what a session
-- does before the block succeeds; the delegate for MySQL is a parameter.
pub mod Confined
use fastapi_tenancy.Prelude.{Text, List, [], Option, none, some, Bool, true, false}
use fastapi_tenancy.Core.Types.{Tenant}
use fastapi_tenancy.Core.Exceptions.{Result, ok, raise, Error, isolation}
use fastapi_tenancy.Core.Config.{TenancyConfig}
use fastapi_tenancy.Utils.DbCompat.{
  DbDialect, postgresql, sqlite, mysql, mssql, unknown, make_table_prefix,
}
use fastapi_tenancy.Isolation.Schema.{validated_schema_name, set_path_sql}
use fastapi_tenancy.Isolation.Session.{
  Block, Served, served, refused, settings_of, or_isolation, rolled_back_by,
}

module _ {A : Type 0} where
  -- With the validated name of the schema.
  abbrev pub in_schema : Result Text → (Text → Served A) → Served A
  in_schema (raise e) run = refused e false
  in_schema (ok schema) run = run schema

  -- The path is set for the first transaction, and by a listener of the session for the later ones.
  unfoldable pub schema_session : Bool → TenancyConfig → Tenant → Block A → Served A
  unfolding validated_schema_name set_path_sql served settings_of
  schema_session opens config t block = in_schema (validated_schema_name config t) λ schema.
      let path = some (set_path_sql schema) in
      elim opens [
        | false ↦ refused isolation true
        | true ↦ served (settings_of (λ c. path) path block.events) block
      ]

  -- The map from tables to the schema stands on the connection of the first transaction.
  unfoldable pub mssql_schema_session : Bool → TenancyConfig → Tenant → Block A → Served A
  unfolding validated_schema_name served settings_of
  mssql_schema_session opens config t block = in_schema (validated_schema_name config t) λ schema.
      elim opens [
        | false ↦ refused isolation true
        | true ↦ served (settings_of (λ c. none) (some schema) block.events) block
      ]

  -- The prefix is in session.info; every exception rolls back.
  unfoldable pub prefix_session : Block A → Served A
  unfolding or_isolation
  prefix_session block = record {
    result = or_isolation block.result;
    settings = settings_of (λ c. none) none block.events;
    rolled_back = elim block.result [ ok a ↦ false | raise e ↦ true ];
  }

  unfoldable pub get_session :
      (Block A → Served A) → Bool → DbDialect → TenancyConfig → Tenant → Block A → Served A
  unfolding schema_session mssql_schema_session prefix_session
  get_session delegate opens mysql config t block = delegate block
  get_session delegate opens mssql config t block = mssql_schema_session opens config t block
  get_session delegate opens postgresql config t block = schema_session opens config t block
  get_session delegate opens dialect config t block = prefix_session block
