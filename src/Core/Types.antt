-- ===== src/Core/Types.antt =====
-- core/types.py: the enumerations and the Tenant model.
use fastapi_tenancy.Prelude.{
  ℕ, Text, codes, text_dec, Bool, true, false, Option, none, some, ite, List, [], ◌∷◌,
}
use fastapi_tenancy.Prelude.Dict.{Dict}

pub data TenantStatus : Type 0 where
  active suspended deleted provisioning : TenantStatus

pub data IsolationStrategy : Type 0 where
  schema database rls hybrid : IsolationStrategy

pub data ResolutionStrategy : Type 0 where
  header subdomain path jwt custom : ResolutionStrategy

-- A metadata value: JSON data. A float is kept as its printed form.
mutual
  pub data Json : Type 0 where
    null : Json
    bool : Bool → Json
    int : Bool → ℕ → Json
    float : Text → Json
    str : Text → Json
    arr : JsonList → Json
    obj : JsonFields → Json

  pub data JsonList : Type 0 where
    nil : JsonList
    cons : Json → JsonList → JsonList

  pub data JsonFields : Type 0 where
    end : JsonFields
    field : Text → Json → JsonFields → JsonFields

-- A timestamp is a number of microseconds.
pub record Tenant : Type 0 where
  pub id : Text
  pub identifier : Text
  pub name : Text
  pub status : TenantStatus
  pub isolation_strategy : Option IsolationStrategy
  pub metadata : Dict Json
  pub created_at : ℕ
  pub updated_at : ℕ
  pub database_url : Option Text
  pub schema_name : Option Text

-- Tenant.__eq__ on two tenants.
unfoldable pub tenant_eq : Tenant → Tenant → Bool
tenant_eq a b = ite (text_dec a.id b.id) true false

unfoldable pub status_eq : TenantStatus → TenantStatus → Bool
status_eq TenantStatus.active TenantStatus.active = true
status_eq TenantStatus.suspended TenantStatus.suspended = true
status_eq TenantStatus.deleted TenantStatus.deleted = true
status_eq TenantStatus.provisioning TenantStatus.provisioning = true
status_eq _ _ = false

-- The text of a status.
unfoldable pub status_value : TenantStatus → Text
status_value TenantStatus.active = codes "active"
status_value TenantStatus.suspended = codes "suspended"
status_value TenantStatus.deleted = codes "deleted"
status_value TenantStatus.provisioning = codes "provisioning"

unfoldable pub is_active : Tenant → Bool
unfolding status_eq
is_active t = status_eq t.status TenantStatus.active

unfoldable pub is_suspended : Tenant → Bool
unfolding status_eq
is_suspended t = status_eq t.status TenantStatus.suspended

unfoldable pub is_deleted : Tenant → Bool
unfolding status_eq
is_deleted t = status_eq t.status TenantStatus.deleted

unfoldable pub is_provisioning : Tenant → Bool
unfolding status_eq
is_provisioning t = status_eq t.status TenantStatus.provisioning

-- An empty text counts as unset, as in the source's truth test.
unfoldable pub masked : Option Text → Option Text
masked none = none
masked (some []) = some []
masked (some (c ∷ url)) = some (codes "***masked***")

unfoldable pub model_dump_safe : Tenant → Tenant
model_dump_safe t = record t { database_url = masked t.database_url }

-- A quota of none is unlimited.
pub record TenantConfig : Type 0 where
  pub max_users : Option ℕ
  pub max_storage_gb : Option ℕ
  pub features_enabled : List Text
  pub rate_limit_per_minute : ℕ
  pub custom_settings : Dict Json

pub record AuditLog : Type 0 where
  pub tenant_id : Text
  pub user_id : Option Text
  pub action : Text
  pub resource : Text
  pub resource_id : Option Text
  pub metadata : Dict Json
  pub ip_address : Option Text
  pub user_agent : Option Text
  pub timestamp : ℕ
