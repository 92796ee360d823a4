-- ===== src/Tests/MigrationTests.antt =====
-- Migrations.
use fastapi_tenancy.Prelude.{
  ◌≡◌, ◌≢◌, ◌<◌, refl, ap, drop, starts_with, ◌++◌, Text, text_dec, codes, some, map, arith,
}
use fastapi_tenancy.Prelude.Dict.{get, put, values}
use fastapi_tenancy.Prelude.Sorting.{sort_desc}
use fastapi_tenancy.Core.Types.{Tenant, TenantStatus, status_eq}
use fastapi_tenancy.Storage.Memory as Store
use fastapi_tenancy.Storage.Memory.{filter_status, list, count}
use fastapi_tenancy.Migrations.{MigrationResult, upgrade, Alembic, migrate_one, migrate_all}
use fastapi_tenancy.Migrations.Pages.{migrate_all-map}
use fastapi_tenancy.Core.Types.{database}
use fastapi_tenancy.Core.Config.{TenancyConfig, strategy_eq, get_isolation_strategy_for_tenant}
use fastapi_tenancy.Utils.Chars.{rstrip, strip, replace, is_word}
use fastapi_tenancy.Utils.Sanitize.{
  sanitize_identifier, core_sanitize_identifier, or_tenant, lead, collapse, mask, is_alpha,
}
use fastapi_tenancy.Isolation.Database.{database_name}
use fastapi_tenancy.Isolation.Database.Urls.{migrated_name}
use fastapi_tenancy.Tests.Samples.{acme, two_tenants, sample_config}

abbrev refuses : Alembic
refuses operation args revision = some (codes "locked")

abbrev one : Tenant → MigrationResult
one =
    migrate_one (λ s. s) (λ template tenant_id name. template) refuses sample_config upgrade
      (codes "head")

few_active : count two_tenants (some TenantStatus.active) < 3
unfolding count Store.create get put text_dec status_eq
few_active = omega arith

migrate_all-map_example :
    migrate_all 3 (λ skip limit. list two_tenants skip limit (some TenantStatus.active)) one 1
    ≡ some (
        map one (
          sort_desc
            (λ t. t.created_at)
            (filter_status (some TenantStatus.active) (values two_tenants.tenants))))
migrate_all-map_example = migrate_all-map two_tenants one 1 3 (omega arith) few_active

abbrev apart : TenancyConfig
apart = record sample_config {
  isolation_strategy = database;
  database_url_template = some (codes "pg://");
}

abbrev format : Text → Text → Text → Text
format template tenant_id name = template ++ name

format_injective :
    (a b : Text)
    → format (codes "pg://") (codes "t1") a ≡ format (codes "pg://") (codes "t1") b
    → a ≡ b
format_injective a b e = ap (drop 5) e

apart_strategy : get_isolation_strategy_for_tenant apart (codes "t1") ≡ database
unfolding get_isolation_strategy_for_tenant strategy_eq
apart_strategy = refl

names_differ : database_name (λ s. s) acme ≢ migrated_name (λ s. s) (codes "t1")
unfolding database_name sanitize_identifier rstrip starts_with core_sanitize_identifier or_tenant
    lead strip collapse mask replace is_word is_alpha
names_differ = λ e. ground (arith, e)
