-- ===== src/Isolation/Schema/Sessions/Confined.antt =====
-- isolation/schema.py: what the statements of a session meet.
use fastapi_tenancy.Prelude.{
  ℕ, ◌≡◌, refl, Text, List, [], ◌∷◌, ◌++◌, Option, none, some, true, length, drop,
}
use fastapi_tenancy.Core.Types.{Tenant}
use fastapi_tenancy.Core.Exceptions.{ok}
use fastapi_tenancy.Core.Config.{TenancyConfig}
use fastapi_tenancy.Utils.DbCompat.{postgresql, mssql}
use fastapi_tenancy.Isolation.Schema.{validated_schema_name, set_path_sql}
use fastapi_tenancy.Isolation.Session.{
  Event, begun, ran, ended, Block, Served, Within, AllMeet, settings_of, settings_of-AllMeet,
  connections_of, served,
}
use fastapi_tenancy.Isolation.Schema.Sessions.{
  get_session, schema_session, mssql_schema_session, in_schema,
}

-- On PostgreSQL every statement of a block, in whichever transaction and on whichever connection,
-- meets the search path of the tenant's validated schema.
pub get_session-AllMeet :
    {A : Type 0} (delegate : Block A → Served A) (config : TenancyConfig) (t : Tenant)
    (schema : Text) (block : Block A)
    → validated_schema_name config t ≡ ok schema
    → Within true block.events
    → AllMeet
        (some (set_path_sql schema))
        (get_session delegate true postgresql config t block).settings
unfolding get_session schema_session served
get_session-AllMeet delegate config t schema block e w =
    rw (e, in_schema) (settings_of-AllMeet _ _ true block.events (λ h. refl) w)

later_statements :
    (now : Option Text) (c : ℕ) (es rest : List Event)
    → AllMeet none
        (drop (length (connections_of c es)) (settings_of (λ c. none) now (es ++ ended ∷ rest)))
unfolding settings_of connections_of
later_statements now c [] rest = none-AllMeet rest
  where
    none-AllMeet : (es : List Event) → AllMeet none (settings_of (λ c. none) none es)
    none-AllMeet [] = tt
    none-AllMeet (begun c ∷ es) = none-AllMeet es
    none-AllMeet (ran ∷ es) = (refl, none-AllMeet es)
    none-AllMeet (ended ∷ es) = none-AllMeet es
later_statements now c (begun d ∷ es) rest = later_statements none d es rest
later_statements now c (ran ∷ es) rest = later_statements now c es rest
later_statements now c (ended ∷ es) rest = later_statements none c es rest

-- On MSSQL the statements of a block after the end of a transaction meet no map into the schema.
pub get_session-later :
    {A : Type 0} (delegate : Block A → Served A) (config : TenancyConfig) (t : Tenant)
    (schema : Text) (block : Block A) (es rest : List Event)
    → validated_schema_name config t ≡ ok schema
    → block.events ≡ es ++ ended ∷ rest
    → AllMeet none (
        drop
          (length (connections_of 0 es))
          (get_session delegate true mssql config t block).settings)
unfolding get_session mssql_schema_session served
get_session-later delegate config t schema block es rest e f =
    rw (e, in_schema, f) (later_statements (some schema) 0 es rest)
