-- ===== src/Migrations.antt =====
-- migrations/manager.py: TenantMigrationManager. Alembic is a parameter: the reason for which a
-- migration fails, if it does. The store's list is a parameter as well; str.lower and str.format
-- too. The workers of one page finish in any order, and gather keeps the order of the page.
pub mod Pages
pub mod Tenants
use fastapi_tenancy.Prelude.{
  ℕ, zero, suc, ◌+◌, Text, codes, List, [], ◌∷◌, ◌++◌, map, length, Option, none, some, Bool, true,
  false, ltb, if◌then◌else◌,
}
use fastapi_tenancy.Prelude.Dict.{Dict}
use fastapi_tenancy.Core.Types.{Tenant, IsolationStrategy, schema, database, rls, hybrid}
use fastapi_tenancy.Core.Exceptions.{Result, ok, raise, ◌>>=◌}
use fastapi_tenancy.Core.Config.{
  TenancyConfig, or_blank, get_schema_name, get_database_url_for_tenant,
  get_isolation_strategy_for_tenant,
}
use fastapi_tenancy.Utils.Chars.{is_empty}

pub data Operation : Type 0 where
  upgrade downgrade : Operation

-- Why a migration failed: what Alembic said, or a ValueError for the name of the schema.
pub data Failure : Type 0 where
  alembic_error : Text → Failure
  bad_schema : Failure

pub data Outcome : Type 0 where
  migrated : Text → Outcome
  failed : Failure → Outcome

pub record MigrationResult : Type 0 where
  pub tenant_id : Text
  pub identifier : Text
  pub outcome : Outcome

-- An override that is set, or else what the configuration gives.
abbrev pub or_else : Option Text → Result Text → Result Text
or_else none given = given
or_else (some []) given = given
or_else (some (c ∷ s)) given = ok (c ∷ s)

unfoldable pub args_for :
    (Text → Text)
    → (Text → Text → Text → Text)
    → IsolationStrategy
    → TenancyConfig
    → Tenant
    → Result (Dict Text)
args_for lower format database config t = do
  url ← or_else t.database_url (ok (get_database_url_for_tenant lower format config t.id))
  ok ((codes "url", url) ∷ [])
args_for lower format schema config t = do
  name ← or_else t.schema_name (get_schema_name config t.identifier)
  ok ((codes "url", config.database_url) ∷ (codes "schema", name) ∷ [])
args_for lower format rls config t = ok ((codes "url", config.database_url) ∷ [])
args_for lower format hybrid config t = ok []

unfoldable pub build_alembic_args :
    (Text → Text) → (Text → Text → Text → Text) → TenancyConfig → Tenant → Result (Dict Text)
unfolding args_for
build_alembic_args lower format config t =
    args_for lower format (get_isolation_strategy_for_tenant config t.id) config t

abbrev pub Alembic : Type 0
Alembic = Operation → Dict Text → Text → Option Text

abbrev pub finished : Text → Option Text → Outcome
finished revision none = migrated revision
finished revision (some reason) = failed (alembic_error reason)

-- _run_migration_sync, within upgrade_tenant or downgrade_tenant: every error is a MigrationError.
unfoldable pub run_migration : Alembic → Operation → Text → Result (Dict Text) → Outcome
run_migration alembic operation revision (raise e) = failed bad_schema
run_migration alembic operation revision (ok args) =
    finished revision (alembic operation args revision)

unfoldable pub migrate_one :
    (Text → Text)
    → (Text → Text → Text → Text)
    → Alembic
    → TenancyConfig
    → Operation
    → Text
    → Tenant
    → MigrationResult
unfolding build_alembic_args run_migration
migrate_one lower format alembic config operation revision t = record {
  tenant_id = t.id;
  identifier = t.identifier;
  outcome = run_migration alembic operation revision (build_alembic_args lower format config t);
}

abbrev pub is_nil : List Tenant → Bool
is_nil [] = true
is_nil (t ∷ ts) = false

-- The loop of upgrade_all and downgrade_all, with fuel; nothing where it runs out. `list` is the
-- store's, for active tenants, and `one` is _migrate_one.
unfoldable pub migrate_loop :
    ℕ
    → (ℕ → ℕ → List Tenant)
    → (Tenant → MigrationResult)
    → ℕ
    → ℕ
    → List MigrationResult
    → Option (List MigrationResult)
migrate_loop zero list one page_size skip results = none
migrate_loop (suc fuel) list one page_size skip results =
    let page = list skip page_size in
    let results' = results ++ map one page in
    let rest = migrate_loop fuel list one page_size (skip + length page) results' in
    if is_nil page
    then some results
    else if ltb (length page) page_size
    then some results'
    else rest

unfoldable pub migrate_all :
    ℕ → (ℕ → ℕ → List Tenant) → (Tenant → MigrationResult) → ℕ → Option (List MigrationResult)
unfolding migrate_loop
migrate_all fuel list one page_size = migrate_loop fuel list one page_size 0 []
