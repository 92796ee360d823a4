-- ===== src/Isolation/Rls.antt =====
-- isolation/rls.py: RLSIsolationProvider, on tables that the tenants share. The database is a dict of
-- the rows of each table; which statements fail is a parameter. The session is in Sessions.
-- The policies live in the database: on which tables one is enforced on the role of the program (FORCE
-- ROW LEVEL SECURITY, as the provider's guide asks for) is a parameter, and what it lets through is
-- that of the sample policy of the source.
pub mod Rows
pub mod Sessions
use fastapi_tenancy.Prelude.{
  Text, codes, text_eq, List, [], ◌∷◌, keep, Option, none, some, Bool, true, false, not, ◌&&◌, ◌||◌,
  if◌then◌else◌,
}
use fastapi_tenancy.Prelude.Dict.{Dict, get, put}
use fastapi_tenancy.Core.Types.{Tenant}
use fastapi_tenancy.Core.Exceptions.{Result, ok, raise, isolation, configuration}
use fastapi_tenancy.Utils.DbCompat.{DbDialect, supports_native_rls}

-- A table of the metadata, and whether it has the column tenant_id.
pub record Table : Type 0 where
  pub name : Text
  pub has_tenant_column : Bool

pub record Row : Type 0 where
  pub tenant_id : Text
  pub content : Text

abbrev pub Database : Type 0
Database = Dict (List Row)

-- The constructor refuses every dialect but PostgreSQL.
unfoldable pub init : DbDialect → Result DbDialect
init dialect = if supports_native_rls dialect then ok dialect else raise configuration

-- create_all with checkfirst: a table that is there stays as it is.
unfoldable pub create_missing : List Table → Database → Database
create_missing [] db = db
create_missing (t ∷ ts) db = elim (get t.name db) [
  | some rows ↦ create_missing ts db
  | none ↦ create_missing ts (put t.name [] db)
]

-- `fails` says whether the transaction does.
unfoldable pub initialize_tenant :
    Bool → Option (List Table) → Database → Result (Unit {0}) × Database
unfolding create_missing
initialize_tenant fails none db = (ok tt, db)
initialize_tenant fails (some tables) db =
    if fails then (raise isolation, db) else (ok tt, create_missing tables db)

-- USING (tenant_id = current_setting('app.current_tenant', TRUE)), which is NULL where nothing is set
abbrev pub let_through : Option Text → Row → Bool
let_through none r = false
let_through (some current) r = text_eq r.tenant_id current

-- The rows of a table that a session with this setting sees.
abbrev pub visible : Bool → Option Text → Row → Bool
visible enforced setting r = not enforced || let_through setting r

-- DELETE FROM table WHERE tenant_id = :id
unfoldable pub delete_rows : Bool → Option Text → Text → List Row → List Row
delete_rows enforced setting tenant_id rows =
    keep (λ r. not (text_eq r.tenant_id tenant_id && visible enforced setting r)) rows

-- The loop of destroy_tenant, nothing where a statement fails: on a table that is not there, or for
-- a reason of the database's own. Nothing sets app.current_tenant in its session.
unfoldable pub delete_loop :
    (Text → Bool) → (Text → Bool) → Text → List Table → Database → Option Database
unfolding delete_rows
delete_loop enforced fails tenant_id [] db = some db
delete_loop enforced fails tenant_id (t ∷ ts) db =
    let skipped = delete_loop enforced fails tenant_id ts db in
    if t.has_tenant_column
    then elim (get t.name db) [
      | none ↦ none
      | some rows ↦
          let rows' = delete_rows (enforced t.name) none tenant_id rows in
          let rest = delete_loop enforced fails tenant_id ts (put t.name rows' db) in
          if fails t.name then none else rest
    ]
    else skipped

-- The end of the transaction: a failure rolls it back.
abbrev pub committed : Database → Option Database → Result (Unit {0}) × Database
committed db none = (raise isolation, db)
committed db (some after) = (ok tt, after)

unfoldable pub destroy_tenant :
    (Text → Bool)
    → (Text → Bool)
    → Option (List Table)
    → Tenant
    → Database
    → Result (Unit {0}) × Database
unfolding delete_loop
destroy_tenant enforced fails none t db = (raise isolation, db)
destroy_tenant enforced fails (some tables) t db =
    committed db (delete_loop enforced fails t.id tables db)

-- The values of set_config and current_setting, nothing where the query fails or gives no row.
unfoldable pub verify_isolation : Option (Text × Text) → Tenant → Bool
verify_isolation none t = false
verify_isolation (some (set, current)) t = text_eq set t.id && text_eq current t.id
