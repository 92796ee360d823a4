-- ===== src/Isolation/Database/Provisioning.antt =====
-- isolation/database.py: provisioning, sessions and removal of tenant databases. The state is the
-- databases of the server, the SQLite files and the cache of engines; which steps fail, and the path
-- in a URL by urlparse, are parameters. `engine` is what create_async_engine would return.
pub mod Lifecycle
use fastapi_tenancy.Prelude.{
  ℕ, Text, text_eq, contains, List, [], ◌∷◌, ◌++◌, Option, none, some, Bool, true, false, not, ◌&&◌,
  keep, if◌then◌else◌,
}
use fastapi_tenancy.Core.Types.{Tenant}
use fastapi_tenancy.Core.Config.{TenancyConfig}
use fastapi_tenancy.Core.Exceptions.{Result, ok, raise, isolation, foreign}
use fastapi_tenancy.Isolation.Database.{database_name, tenant_url}
use fastapi_tenancy.Isolation.Engines.{
  LruEngineCache, Acquired, listed, get_engine, remove, dispose_all,
}
use fastapi_tenancy.Isolation.Session.{Block, Served, served, refused, settings_of}
use fastapi_tenancy.Utils.Chars.{is_empty}
use fastapi_tenancy.Utils.DbCompat.{DbDialect, postgresql, sqlite, mysql, mssql, unknown}
use fastapi_tenancy.Utils.Validation.{validate_database_name}

pub record State : Type 0 where
  pub databases : List Text
  pub files : List Text
  pub engines : LruEngineCache
  pub disposed : List ℕ

-- Whether a statement on the master connection, create_all on the tenant's engine and unlink fail.
pub record Faults : Type 0 where
  pub statement : Bool
  pub tables : Bool
  pub unlink : Bool

abbrev pub Outcome : Type 0
Outcome = Result (Unit {0}) × State

abbrev pub without : Text → List Text → List Text
without name names = keep (λ n. not (text_eq n name)) names

-- CREATE DATABASE for a name that is not there yet
unfoldable pub create_database : DbDialect → Text → List Text → List Text
unfolding contains
create_database postgresql name names = if contains names name then names else name ∷ names
create_database mysql name names = if contains names name then names else name ∷ names
create_database dialect name names = names

-- DROP DATABASE IF EXISTS
unfoldable pub drop_database : DbDialect → Text → List Text → List Text
drop_database postgresql name names = without name names
drop_database mysql name names = without name names
drop_database dialect name names = names

abbrev pub with_engine : State → Acquired → State
with_engine s a = record s { engines = a.engines; disposed = a.disposed ++ s.disposed }

-- After an engine is removed from the cache, it is disposed of.
abbrev pub without_engine : Text → State → State
without_engine tenant_id s =
    let (evicted, engines) = remove tenant_id s.engines in
    record s { engines = engines; disposed = listed evicted ++ s.disposed }

module _ (lower : Text → Text) (format : Text → Text → Text → Text) (path_of : Text → Text)
    (config : TenancyConfig) (faults : Faults) where
  -- The file of a SQLite tenant, and whether there is one.
  abbrev pub file_of : Tenant → Text
  file_of t = path_of (tenant_url lower format sqlite config t)

  abbrev pub is_there : Text → List Text → Bool
  is_there path files = not (is_empty path) && contains files path

  unfoldable pub create_tables : Bool → Tenant → ℕ → State → Outcome
  create_tables false t engine s = (ok tt, s)
  create_tables true t engine s = elim (get_engine t.id engine s.engines) [
    | raise e ↦ (raise isolation, s)
    | ok a ↦ (if faults.tables then raise isolation else ok tt, with_engine s a)
  ]

  -- An error on SQLite is not wrapped.
  unfoldable pub initialize_sqlite : Bool → Tenant → ℕ → State → Outcome
  unfolding tenant_url
  initialize_sqlite metadata t engine s = elim (get_engine t.id engine s.engines) [
    | raise e ↦ (raise e, s)
    | ok a ↦
        if metadata
        then if faults.tables
          then (raise foreign, with_engine s a)
          else (ok tt, record (with_engine s a) { files = file_of t ∷ without (file_of t) s.files })
        else (ok tt, with_engine s a)
  ]

  unfoldable pub initialize_server : DbDialect → Bool → Tenant → ℕ → State → Outcome
  initialize_server dialect metadata t engine s =
      let name = database_name lower t in
      if validate_database_name name
      then if faults.statement
        then (raise isolation, s)
        else create_tables metadata t engine
            (record s { databases = create_database dialect name s.databases })
      else (raise isolation, s)

  -- `metadata` says whether there are tables to create.
  unfoldable pub initialize_tenant : DbDialect → Bool → Tenant → ℕ → State → Outcome
  initialize_tenant sqlite metadata t engine s = initialize_sqlite metadata t engine s
  initialize_tenant mssql metadata t engine s = (raise isolation, s)
  initialize_tenant dialect metadata t engine s = initialize_server dialect metadata t engine s

  unfoldable pub destroy_sqlite : Tenant → State → Outcome
  unfolding remove tenant_url contains
  destroy_sqlite t s =
      let s' = without_engine t.id s in
      if is_there (file_of t) s.files
      then if faults.unlink
        then (raise isolation, s')
        else (ok tt, record s' { files = without (file_of t) s.files })
      else (ok tt, s')

  unfoldable pub destroy_server : DbDialect → Tenant → State → Outcome
  unfolding remove
  destroy_server dialect t s =
      let name = database_name lower t in
      let s' = without_engine t.id s in
      if validate_database_name name
      then if faults.statement
        then (raise isolation, s')
        else (ok tt, record s' { databases = drop_database dialect name s.databases })
      else (raise isolation, s)

  unfoldable pub destroy_tenant : DbDialect → Tenant → State → Outcome
  destroy_tenant sqlite t s = destroy_sqlite t s
  destroy_tenant dialect t s = destroy_server dialect t s

  -- Whether the server says that it has the database.
  unfoldable pub has_database : DbDialect → Text → List Text → Bool
  unfolding contains
  has_database postgresql name names = contains names name
  has_database mysql name names = contains names name
  has_database dialect name names = false

  unfoldable pub verify_isolation : DbDialect → Tenant → State → Bool
  unfolding contains tenant_url
  verify_isolation sqlite t s = is_there (file_of t) s.files
  verify_isolation dialect t s =
      let name = database_name lower t in
      validate_database_name name && (not faults.statement && has_database dialect name s.databases)

-- The block runs on the tenant's engine; an error of _get_engine is not wrapped.
unfoldable pub get_session : {A : Type 0} → Tenant → ℕ → Block A → State → Served A × State
unfolding served settings_of
get_session t engine block s = elim (get_engine t.id engine s.engines) [
  | raise e ↦ (refused e false, s)
  | ok a ↦ (served (settings_of (λ c. none) none block.events) block, with_engine s a)
]

unfoldable pub close : State → State
unfolding dispose_all
close s =
    let (engines, emptied) = dispose_all s.engines in
    record s { engines = emptied; disposed = engines ++ s.disposed }
