-- ===== src/Isolation/Filters.antt =====
-- isolation/*.py: apply_filters. A query on a table with the column tenant_id is the condition of its
-- rows.
pub mod Apart
use fastapi_tenancy.Prelude.{text_eq, List, Bool, ◌&&◌, keep}
use fastapi_tenancy.Core.Types.{Tenant}
use fastapi_tenancy.Isolation.Rls.{Row}

abbrev pub Query : Type 0
Query = Row → Bool

-- query.where(column("tenant_id") == tenant.id)
abbrev pub where_tenant : Query → Tenant → Query
where_tenant query t r = query r && text_eq r.tenant_id t.id

unfoldable pub schema_filters : Query → Tenant → Query
schema_filters query t = where_tenant query t

unfoldable pub rls_filters : Query → Tenant → Query
rls_filters query t = where_tenant query t

-- The database is the tenant's own.
unfoldable pub database_filters : Query → Tenant → Query
database_filters query t = query

abbrev pub select : Query → List Row → List Row
select query rows = keep query rows
