-- ===== src/Tests/IsolationTests.antt =====
-- Schema isolation.
use fastapi_tenancy.Prelude.{
  ◌≡◌, refl, Text, codes, starts_with, contains, List, none, some, [], ◌∷◌, ◌++◌, Bool, true, false,
  text_dec,
}
use fastapi_tenancy.Core.Types.{Tenant}
use fastapi_tenancy.Core.Exceptions.{ok, raise, Error}
use fastapi_tenancy.Utils.Validation.{validate_schema_name}
use fastapi_tenancy.Utils.DbCompat.{postgresql, sqlite, make_table_prefix}
use fastapi_tenancy.Isolation.Schema.{Table, Action, Database, Run, created}
use fastapi_tenancy.Isolation.Schema.Provisioning.{initialize_tenant, destroy_tenant}
use fastapi_tenancy.Isolation.Schema.Quoting.{AllQuoted, tenant-AllQuoted}
use fastapi_tenancy.Isolation.Schema.Collision.{Drops, destroy_tenant-Drops}
use fastapi_tenancy.Utils.Chars.{rstrip, strip, replace, is_word}
use fastapi_tenancy.Utils.Sanitize.{
  core_sanitize_identifier, or_tenant, lead, collapse, mask, is_alpha,
}
use fastapi_tenancy.Isolation.Rls as Rls
use fastapi_tenancy.Isolation.Rls.{Row}
use fastapi_tenancy.Isolation.Rls.Rows.{remaining, destroy_tenant-remaining}
use fastapi_tenancy.Prelude.Dict.{get, put}
use fastapi_tenancy.Isolation.Rls.Rows.{destroy_tenant-enforced, is_shared}
use fastapi_tenancy.Isolation.Filters.{rls_filters, select}
use fastapi_tenancy.Isolation.Filters.Apart.{destroy_tenant-filters}
use fastapi_tenancy.Prelude.{◌≢◌, ap, text_eq}
use fastapi_tenancy.Tests.Samples.{acme, sample_config}

-- A tenant whose identifier continues with another tenant's, and its tables.
abbrev short : Tenant
short = record acme { id = codes "t3"; identifier = codes "acme" }

-- A database that takes every statement but not the tables.
abbrev accepts : Action → Bool
accepts (created _ _) = false
accepts _ = true

abbrev shared : Database
shared = record {
  succeeds = accepts;
  schema_exists = λ _. none;
  table_names = some (codes "t_acme_users" ∷ codes "t_acme_corp_users" ∷ []);
}

abbrev idle : Run
idle = (ok tt, [])

abbrev users : List Table
users = (record { name = codes "users"; foreign_keys = [] }) ∷ []

tenant-AllQuoted_example :
    AllQuoted (initialize_tenant (λ s. s) idle shared postgresql sample_config acme (some users)).1
    × AllQuoted (destroy_tenant (λ s. s) idle shared postgresql sample_config acme).1
tenant-AllQuoted_example = tenant-AllQuoted (λ s. s) idle shared sample_config acme (some users)

prefix_begins :
    starts_with
      (make_table_prefix (λ s. s) (codes "acme"))
      (make_table_prefix (λ s. s) (codes "acme-corp"))
    ≡ true
unfolding make_table_prefix rstrip starts_with core_sanitize_identifier or_tenant lead strip
    collapse mask replace is_word is_alpha
prefix_begins = refl

others_table :
    contains
      (codes "t_acme_users" ∷ codes "t_acme_corp_users" ∷ [])
      (make_table_prefix (λ s. s) (codes "acme-corp") ++ codes "users")
    ≡ true
unfolding contains text_dec make_table_prefix rstrip starts_with core_sanitize_identifier or_tenant
    lead strip collapse mask replace is_word is_alpha
others_table = refl

removes : (destroy_tenant (λ s. s) idle shared sqlite sample_config short).0 ≡ ok tt
unfolding destroy_tenant validate_schema_name make_table_prefix rstrip starts_with
    core_sanitize_identifier or_tenant lead strip collapse mask replace is_word is_alpha
removes = refl

destroy_tenant-Drops_example :
    Drops
      (make_table_prefix (λ s. s) (codes "acme-corp") ++ codes "users")
      (destroy_tenant (λ s. s) idle shared sqlite sample_config short).1
destroy_tenant-Drops_example =
    destroy_tenant-Drops (λ s. s) idle shared sample_config short acme
      (codes "t_acme_users" ∷ codes "t_acme_corp_users" ∷ []) (codes "users") prefix_begins refl
      others_table removes

-- Rows of two tenants in one table, and a table without the column.
abbrev rows : List Row
rows =
    (record { tenant_id = codes "t1"; content = codes "a" })
    ∷ (record { tenant_id = codes "t2"; content = codes "b" })
    ∷ []

abbrev orders : Rls.Database
orders = (codes "orders", rows) ∷ (codes "plans", rows) ∷ []

abbrev tables : List Rls.Table
tables =
    (record { name = codes "orders"; has_tenant_column = true })
    ∷ (record { name = codes "plans"; has_tenant_column = false })
    ∷ []

destroy_tenant-remaining_example :
    ((Rls.destroy_tenant (λ _. false) (λ _. false) (some tables) acme orders).0 ≡ ok tt
      → (k : Text) (held : List Row) → get k orders ≡ some held
      → get k (Rls.destroy_tenant (λ _. false) (λ _. false) (some tables) acme orders).1
        ≡ some (remaining (λ _. false) tables acme.id k held))
    × ((e : Error)
        → (Rls.destroy_tenant (λ _. false) (λ _. false) (some tables) acme orders).0 ≡ raise e
        → (Rls.destroy_tenant (λ _. false) (λ _. false) (some tables) acme orders).1 ≡ orders)
destroy_tenant-remaining_example =
    destroy_tenant-remaining (λ _. false) (λ _. false) tables acme orders

abbrev neighbour : Tenant
neighbour = record acme { id = codes "t2" }

acme_destroyed : (Rls.destroy_tenant (λ _. false) (λ _. false) (some tables) acme orders).0 ≡ ok tt
unfolding Rls.destroy_tenant Rls.delete_loop Rls.delete_rows get put text_dec
acme_destroyed = refl

orders_rows : get (codes "orders") orders ≡ some rows
unfolding get text_dec
orders_rows = refl

orders_shared : is_shared tables (codes "orders") ≡ true
unfolding is_shared text_dec
orders_shared = refl

neighbour_ne : neighbour.id ≢ acme.id
unfolding text_dec
neighbour_ne h = let e : false ≡ true = ap (λ s. text_eq s acme.id) h in cc

destroy_tenant-filters_example :
    (after : List Row) × (get
        (codes "orders")
        (Rls.destroy_tenant (λ _. false) (λ _. false) (some tables) acme orders).1
      ≡ some after)
    × (select (rls_filters (λ _. true) acme) after ≡ [])
    × (select (rls_filters (λ _. true) neighbour) after
        ≡ select (rls_filters (λ _. true) neighbour) rows)
destroy_tenant-filters_example =
    destroy_tenant-filters (λ _. false) (λ _. false) tables acme neighbour orders (codes "orders")
      rows (λ _. true) acme_destroyed orders_rows orders_shared refl neighbour_ne

-- With a policy enforced on every table.
acme_returns : (Rls.destroy_tenant (λ _. true) (λ _. false) (some tables) acme orders).0 ≡ ok tt
unfolding Rls.destroy_tenant Rls.delete_loop Rls.delete_rows get put text_dec
acme_returns = refl

destroy_tenant-enforced_example :
    get (codes "orders") (Rls.destroy_tenant (λ _. true) (λ _. false) (some tables) acme orders).1
    ≡ some rows
destroy_tenant-enforced_example =
    destroy_tenant-enforced (λ _. true) (λ _. false) tables acme orders (codes "orders") rows
      acme_returns orders_rows refl
