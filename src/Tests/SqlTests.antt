-- ===== src/Tests/SqlTests.antt =====
-- The SQL store.
use fastapi_tenancy.Prelude.{◌≡◌, refl, codes, some, [], ◌∷◌}
use fastapi_tenancy.Prelude.Dict.{Dict}
use fastapi_tenancy.Core.Types.{Tenant, TenantStatus, Json, null}
use fastapi_tenancy.Storage.Memory as Store
use fastapi_tenancy.Storage.Memory.Consistent.{empty-IsConsistent, create-IsConsistent}
use fastapi_tenancy.Storage.Sql.{
  Codec, get_by_id, get_by_identifier, create, delete, set_status, update_metadata_generic,
}
use fastapi_tenancy.Storage.Sql.Rows.{Loads, table}
use fastapi_tenancy.Storage.Memory.{MemoryStore}
use fastapi_tenancy.Storage.Sql.Alike.{tabled, sql_alike}
use fastapi_tenancy.Tests.Samples.{acme, globex, two_tenants}

-- A column that holds the metadata themselves.
abbrev pub direct : Codec (Dict Json)
direct = record { dumps = λ d. d; loads = λ d. some d }

pub direct-Loads : Loads direct
direct-Loads d = refl

abbrev twin : Tenant
twin = record acme { id = codes "t3" }

abbrev pub plan : Dict Json
plan = (codes "plan", null) ∷ []

sql_alike_example :
    (get_by_id direct (codes "t1") (table direct two_tenants.tenants)
      ≡ Store.get_by_id two_tenants (codes "t1"))
    × (get_by_identifier direct (codes "globex") (table direct two_tenants.tenants)
        ≡ Store.get_by_identifier two_tenants (codes "globex"))
    × (create direct twin (table direct two_tenants.tenants)
        ≡ tabled direct (Store.create twin two_tenants))
    × (delete (codes "t1") (table direct two_tenants.tenants)
        ≡ tabled direct (Store.delete (codes "t1") two_tenants))
    × (set_status direct 9 (codes "t1") TenantStatus.suspended (table direct two_tenants.tenants)
        ≡ tabled direct (Store.set_status 9 (codes "t1") TenantStatus.suspended two_tenants))
    × (update_metadata_generic direct 9 (codes "t1") plan (table direct two_tenants.tenants)
        ≡ tabled direct (Store.update_metadata 9 (codes "t1") plan two_tenants))
sql_alike_example =
    sql_alike direct two_tenants twin (codes "t1") (codes "globex") 9 TenantStatus.suspended plan
      direct-Loads (create-IsConsistent globex (create-IsConsistent acme empty-IsConsistent))
