-- ===== src/Isolation/Database/Urls.antt =====
-- isolation/database.py and migrations/manager.py: the URL of a tenant's database in both.
use fastapi_tenancy.Prelude.{◌≡◌, ◌≢◌, refl, Text, codes, none, some, [], ◌∷◌, ◌++◌, false, arith}
use fastapi_tenancy.Core.Types.{Tenant, database}
use fastapi_tenancy.Core.Exceptions.{ok}
use fastapi_tenancy.Core.Config.{
  TenancyConfig, get_database_url_for_tenant, get_isolation_strategy_for_tenant,
}
use fastapi_tenancy.Utils.Chars.{is_empty, replace}
use fastapi_tenancy.Utils.DbCompat.{postgresql}
use fastapi_tenancy.Isolation.Database.{database_name, server_url, tenant_url}
use fastapi_tenancy.Migrations.{build_alembic_args, args_for}

-- The name of the database in the URL that a migration is given.
abbrev pub migrated_name : (Text → Text) → Text → Text
migrated_name lower tenant_id =
    codes "tenant_" ++ (lower (replace b'.' b'_' (replace b'-' b'_' tenant_id)) ++ codes "_db")

-- With a template, and a tenant without a URL of its own: the isolation provider names the database
-- after the identifier, a migration after the id. Where the two names differ, and the template shows
-- the name, the migration is given a URL that is not the one of the database that the tenant uses.
pub tenant_url_ne_args :
    (lower : Text → Text) (format : Text → Text → Text → Text) (config : TenancyConfig) (t : Tenant)
    (template : Text)
    → config.database_url_template ≡ some template
    → is_empty template ≡ false
    → get_isolation_strategy_for_tenant config t.id ≡ database
    → t.database_url ≡ none
    → ((a b : Text) → format template t.id a ≡ format template t.id b → a ≡ b)
    → database_name lower t ≢ migrated_name lower t.id
    → (url : Text) × (build_alembic_args lower format config t ≡ ok ((codes "url", url) ∷ []))
      × (tenant_url lower format postgresql config t ≢ url)
unfolding build_alembic_args args_for get_database_url_for_tenant tenant_url server_url
tenant_url_ne_args lower format config t template given filled strategy own shows differ = (
  format template t.id (migrated_name lower t.id),
  rw (strategy, args_for, own, given, filled) refl,
  λ e.
      differ (
        shows (database_name lower t) (migrated_name lower t.id)
          (ground (arith, given, filled, e))),
)
