-- ===== src/Isolation/Database.antt =====
-- isolation/database.py: the name of a tenant's database, and its URL. str.lower and str.format (of a
-- template, the tenant's id and the name of its database) are parameters. A URL has no line break.
pub mod Collision
pub mod Urls
pub mod Provisioning
use fastapi_tenancy.Prelude.{
  Text, codes, Option, none, some, [], ◌∷◌, ◌++◌, Bool, ◌||◌, ◌==◌, if◌then◌else◌,
}
use fastapi_tenancy.Core.Types.{Tenant}
use fastapi_tenancy.Core.Config.{TenancyConfig, or_blank}
use fastapi_tenancy.Utils.Chars.{is_empty}
use fastapi_tenancy.Utils.DbCompat.{DbDialect, postgresql, sqlite, mysql, mssql, unknown}
use fastapi_tenancy.Utils.Sanitize.{sanitize_identifier}

unfoldable pub database_name : (Text → Text) → Tenant → Text
database_name lower tenant =
    codes "tenant_" ++ (sanitize_identifier lower tenant.identifier ++ codes "_db")

-- What precedes the last slash, by rsplit("/", 1).
unfoldable pub before_last_slash : Text → Option Text
before_last_slash [] = none
before_last_slash (c ∷ s) = elim (before_last_slash s) [
  | some r ↦ some (c ∷ r)
  | none ↦ if c == b'/' then some [] else none
]

-- [^/?]*(\?.*)?$ from here on: the group, the empty text where it took no part.
unfoldable pub segment_end : Text → Option Text
segment_end [] = some []
segment_end (c ∷ s) =
    let rest = segment_end s in if c == b'/' then none else if c == b'?' then some (c ∷ s) else rest

-- re.sub: the first slash after which that matches, with all that follows, is replaced.
unfoldable pub replace_database : Text → Text → Text
unfolding segment_end
replace_database db_name [] = []
replace_database db_name (c ∷ s) =
    let rest = replace_database db_name s in
    if c == b'/'
    then elim (segment_end s) [ some query ↦ codes "/" ++ (db_name ++ query) | none ↦ c ∷ rest ]
    else c ∷ rest

-- The file of a SQLite tenant, beside the configured one.
abbrev pub beside : Text → Text → Option Text → Text
beside base slug none = base
beside base slug (some directory) = directory ++ (codes "/" ++ (slug ++ codes ".db"))

unfoldable pub server_url :
    (Text → Text) → (Text → Text → Text → Text) → TenancyConfig → Tenant → Text
unfolding database_name replace_database
server_url lower format config tenant =
    let template = or_blank config.database_url_template in
    if is_empty template
    then replace_database (database_name lower tenant) config.database_url
    else format template tenant.id (database_name lower tenant)

unfoldable pub tenant_url :
    (Text → Text) → (Text → Text → Text → Text) → DbDialect → TenancyConfig → Tenant → Text
unfolding server_url before_last_slash
tenant_url lower format sqlite config tenant =
    beside config.database_url (sanitize_identifier lower tenant.identifier)
      (before_last_slash config.database_url)
tenant_url lower format dialect config tenant = server_url lower format config tenant
