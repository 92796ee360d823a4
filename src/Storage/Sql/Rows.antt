-- ===== src/Storage/Sql/Rows.antt =====
-- storage/database.py: rows and tenants.
use fastapi_tenancy.Prelude.{◌≡◌, refl, Text, text_dec, [], ◌∷◌, Option, none, some, arith}
use fastapi_tenancy.Prelude.Dict.{Dict, get, put, del}
use fastapi_tenancy.Core.Types.{
  Tenant, TenantStatus, IsolationStrategy, Json, schema, database, rls, hybrid, status_value,
}
use fastapi_tenancy.Core.Exceptions.{ok}
use fastapi_tenancy.Storage.Sql.{
  Codec, TenantModel, strategy_value, status_of, strategy_of, strategy_text, to_domain, of_domain,
}

status_of-status_value : (s : TenantStatus) → status_of (status_value s) ≡ ok s
unfolding status_of status_value text_dec
status_of-status_value TenantStatus.active = refl
status_of-status_value TenantStatus.suspended = refl
status_of-status_value TenantStatus.deleted = refl
status_of-status_value TenantStatus.provisioning = refl

strategy_of-strategy_text : (k : Option IsolationStrategy) → strategy_of (strategy_text k) ≡ ok k
unfolding strategy_of strategy_value text_dec
strategy_of-strategy_text none = refl
strategy_of-strategy_text (some schema) = refl
strategy_of-strategy_text (some database) = refl
strategy_of-strategy_text (some rls) = refl
strategy_of-strategy_text (some hybrid) = refl

module _ {B : Type 0} (c : Codec B) where
  -- The documented behaviour of Python's json.
  abbrev pub Loads : Type 0
  Loads = (d : Dict Json) → c.loads (c.dumps d) ≡ some d

  pub to_domain-of_domain : (t : Tenant) → Loads → to_domain c (of_domain c t) ≡ ok t
  unfolding to_domain of_domain
  to_domain-of_domain t l =
      rw
        (
          status_of-status_value t.status,
          strategy_of-strategy_text t.isolation_strategy,
          l t.metadata,
        )
        refl

  -- The table for a dict of tenants.
  abbrev pub table : Dict Tenant → Dict (TenantModel B)
  table [] = []
  table ((k, t) ∷ d) = (k, of_domain c t) ∷ table d

  abbrev pub row : Option Tenant → Option (TenantModel B)
  row none = none
  row (some t) = some (of_domain c t)

  pub get-table : (k : Text) (d : Dict Tenant) → get k (table d) ≡ row (get k d)
  unfolding get
  get-table k [] = refl
  get-table k ((j, t) ∷ d) = ground (arith, get-table k d)

  pub put-table :
      (k : Text) (t : Tenant) (d : Dict Tenant)
      → put k (of_domain c t) (table d) ≡ table (put k t d)
  unfolding put
  put-table k t [] = refl
  put-table k t ((j, u) ∷ d) = ground (arith, put-table k t d)

  pub del-table : (k : Text) (d : Dict Tenant) → del k (table d) ≡ table (del k d)
  unfolding del
  del-table k [] = refl
  del-table k ((j, u) ∷ d) = ground (arith, del-table k d)
