-- ===== src/Core/Context.antt =====
-- core/context.py: TenantContext, tenant_scope and the two dependencies. The state is the values
-- of the two context variables in the current context; a token is the value that the variable had
-- before.
pub mod Scopes
use fastapi_tenancy.Prelude.{Text, Option, none, some, List, [], ◌∷◌}
use fastapi_tenancy.Prelude.Dict as Dict
use fastapi_tenancy.Core.Types.{Tenant, Json}
use fastapi_tenancy.Core.Exceptions.{Result, ok, raise, tenant_not_found}

pub record Context : Type 0 where
  pub tenant : Option Tenant
  pub metadata : Option (Dict.Dict Json)

unfoldable pub set : Tenant → Context → Option Tenant × Context
set t c = (c.tenant, record c { tenant = some t })

unfoldable pub get : Context → Result Tenant
get c = elim c.tenant [ none ↦ raise (tenant_not_found none) | some t ↦ ok t ]

unfoldable pub get_optional : Context → Option Tenant
get_optional c = c.tenant

unfoldable pub reset : Option Tenant → Context → Context
reset token c = record c { tenant = token }

unfoldable pub clear : Context → (Option Tenant × Option (Dict.Dict Json)) × Context
clear c = ((c.tenant, c.metadata), record { tenant = none; metadata = none })

unfoldable pub reset_all : Option Tenant → Option (Dict.Dict Json) → Context → Context
reset_all tenant_token metadata_token c = record {
  tenant = tenant_token;
  metadata = metadata_token;
}

abbrev pub or_empty : Option (Dict.Dict Json) → Dict.Dict Json
or_empty none = []
or_empty (some d) = d

unfoldable pub set_metadata : Text → Json → Context → Context
set_metadata key value c = record c { metadata = some (Dict.put key value (or_empty c.metadata)) }

unfoldable pub get_metadata : Text → Json → Context → Json
get_metadata key default c = elim c.metadata [
  | none ↦ default
  | some meta ↦ elim (Dict.get key meta) [ none ↦ default | some v ↦ v ]
]

unfoldable pub get_all_metadata : Context → Dict.Dict Json
get_all_metadata c = or_empty c.metadata

unfoldable pub clear_metadata : Context → Option (Dict.Dict Json) × Context
clear_metadata c = (c.metadata, record c { metadata = none })

-- The block runs in the context that the scope sets up, and the `finally` runs whatever it returns
-- or raises.
unfoldable pub tenant_scope :
    {A : Type 0} → Tenant → (Tenant → Context → Result A × Context) → Context → Result A × Context
unfolding set clear_metadata reset
tenant_scope t block c =
    let (token, c1) = set t c in
    let (meta_token, c2) = clear_metadata c1 in
    let (r, c3) = block t c2 in (r, record (reset token c3) { metadata = meta_token })

unfoldable pub get_current_tenant : Context → Result Tenant
unfolding get
get_current_tenant c = get c

unfoldable pub get_current_tenant_optional : Context → Option Tenant
unfolding get_optional
get_current_tenant_optional c = get_optional c
