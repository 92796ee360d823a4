-- ===== src/Utils/DbCompat.antt =====
-- utils/db_compat.py: dialects and the table prefix. str.lower is a parameter. Beyond ASCII the
-- source's case-insensitive pattern accepts a character that no scheme of the map has.
pub mod Prefix
use fastapi_tenancy.Prelude.{
  ℕ, Text, codes, starts_with, Option, none, some, [], ◌∷◌, ◌++◌, Bool, true, false, ◌||◌, ◌==◌,
  take, drop, if◌then◌else◌,
}
use fastapi_tenancy.Prelude.Dict.{Dict, get}
use fastapi_tenancy.Utils.Chars.{is_lower, is_alnum, strip, rstrip}
use fastapi_tenancy.Utils.Sanitize.{core_sanitize_identifier, underscore}

pub data DbDialect : Type 0 where
  postgresql sqlite mysql mssql unknown : DbDialect

unfoldable pub dialect_map : Dict DbDialect
dialect_map =
    (codes "postgresql", postgresql)
    ∷ (codes "postgresql+asyncpg", postgresql)
    ∷ (codes "postgresql+psycopg", postgresql)
    ∷ (codes "postgresql+psycopg2", postgresql)
    ∷ (codes "asyncpg", postgresql)
    ∷ (codes "sqlite", sqlite)
    ∷ (codes "sqlite+aiosqlite", sqlite)
    ∷ (codes "aiosqlite", sqlite)
    ∷ (codes "mysql", mysql)
    ∷ (codes "mysql+aiomysql", mysql)
    ∷ (codes "mysql+asyncmy", mysql)
    ∷ (codes "mariadb", mysql)
    ∷ (codes "mariadb+aiomysql", mysql)
    ∷ (codes "mssql", mssql)
    ∷ (codes "mssql+aioodbc", mssql)
    ∷ []

-- [a-z0-9+]*?:// with the characters before the colon
unfoldable pub scheme_rest : Text → Option Text
scheme_rest [] = none
scheme_rest (c ∷ s) =
    let rest = scheme_rest s in
    if starts_with (codes "://") (c ∷ s)
    then some []
    else if is_alnum c || c == b'+'
    then elim rest [ none ↦ none | some r ↦ some (c ∷ r) ]
    else none

-- ^([a-z][a-z0-9+]*?)://
unfoldable pub scheme_re : Text → Option Text
scheme_re [] = none
scheme_re (c ∷ s) =
    if is_lower c then elim (scheme_rest s) [ none ↦ none | some r ↦ some (c ∷ r) ] else none

-- `trim` is str.strip.
unfoldable pub detect_dialect : (Text → Text) → (Text → Text) → Text → DbDialect
unfolding scheme_re scheme_rest dialect_map
detect_dialect lower trim url = elim (scheme_re (trim (lower url))) [
  | none ↦ unknown
  | some scheme ↦ elim (get scheme dialect_map) [ none ↦ unknown | some d ↦ d ]
]

unfoldable pub supports_native_schemas : DbDialect → Bool
supports_native_schemas postgresql = true
supports_native_schemas mssql = true
supports_native_schemas _ = false

unfoldable pub supports_native_rls : DbDialect → Bool
supports_native_rls postgresql = true
supports_native_rls _ = false

unfoldable pub requires_static_pool : DbDialect → Bool
requires_static_pool sqlite = true
requires_static_pool _ = false

unfoldable pub get_set_tenant_sql : DbDialect → Option Text
get_set_tenant_sql postgresql = some (codes "SET LOCAL app.current_tenant = :tenant_id")
get_set_tenant_sql _ = none

unfoldable pub get_schema_set_sql : DbDialect → Option Text
get_schema_set_sql postgresql = some (codes "SET LOCAL search_path TO {schema}, public")
get_schema_set_sql _ = none

-- base or safe
abbrev pub or_safe : Text → Text → Text
or_safe [] safe = safe
or_safe (c ∷ s) safe = c ∷ s

unfoldable pub prefix_of : Text → Text
prefix_of safe =
    let base = if starts_with (codes "t_") safe then drop 2 safe else safe in
    codes "t_" ++ (rstrip underscore (take 20 (or_safe base safe)) ++ codes "_")

unfoldable pub make_table_prefix : (Text → Text) → Text → Text
unfolding prefix_of
make_table_prefix lower identifier = prefix_of (core_sanitize_identifier lower identifier)
