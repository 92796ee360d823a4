-- ===== src/Manager/Tenants.antt =====
-- manager.py: register_tenant, decrypt_tenant, suspend_tenant, activate_tenant and delete_tenant, over
-- any store and any isolation provider. The clock, the new id and the random number of the
-- encryption are arguments.
pub mod Registration
pub mod Removal
use fastapi_tenancy.Prelude.{
  ℕ, Text, Option, none, some, Bool, not, ◌&&◌, leb, length, if◌then◌else◌, [],
}
use fastapi_tenancy.Prelude.Dict.{Dict}
use fastapi_tenancy.Core.Types.{Tenant, TenantStatus, IsolationStrategy, Json}
use fastapi_tenancy.Core.Exceptions.{Result, ok, raise, tenancy, value_error, foreign}
use fastapi_tenancy.Core.Config.{TenancyConfig}
use fastapi_tenancy.Utils.Validation.{validate_tenant_identifier}
use fastapi_tenancy.Utils.Encryption.{Fernet, encrypt_tenant_fields, decrypt_tenant_fields}
use fastapi_tenancy.Storage.Contract.{TenantStore}
use fastapi_tenancy.Manager.Factory.{TenancyManager}

-- What the manager calls of an isolation provider; the metadata of SQLAlchemy is fixed.
pub record Isolation (D : Type 0) : Type 0 where
  pub initialize_tenant : Tenant → D → Result (Unit {0}) × D
  pub destroy_tenant : Tenant → D → Result (Unit {0}) × D

-- The tenants, and the namespaces with their data.
pub record World (S D : Type 0) : Type 0 where
  pub records : S
  pub namespaces : D

-- What a caller passes to register_tenant.
pub record Request : Type 0 where
  pub identifier : Text
  pub name : Text
  pub metadata : Dict Json
  pub isolation_strategy : Option IsolationStrategy

-- What a call draws: the time, an id and a random number.
pub record Draw : Type 0 where
  pub now : ℕ
  pub tenant_id : Text
  pub nonce : ℕ

abbrev pub new_tenant : TenancyConfig → Draw → Request → Tenant
new_tenant config draw r = record {
  id = draw.tenant_id;
  identifier = r.identifier;
  name = r.name;
  status = config.default_tenant_status;
  isolation_strategy = r.isolation_strategy;
  metadata = r.metadata;
  created_at = draw.now;
  updated_at = draw.now;
  database_url = none;
  schema_name = none;
}

-- The bounds on the lengths that Tenant has.
unfoldable pub fits : ℕ → ℕ → Text → Bool
fits lo hi s = leb lo (length s) && leb (length s) hi

unfoldable pub is_tenant : Tenant → Bool
unfolding fits
is_tenant t = fits 1 255 t.id && (fits 3 63 t.identifier && fits 1 255 t.name)

unfoldable pub encrypted : Option Fernet → ℕ → Tenant → Tenant
encrypted none n t = t
encrypted (some f) n t = encrypt_tenant_fields f n t

-- What a Fernet that cannot read a text raises is not the program's.
abbrev pub read_or_foreign : Option Tenant → Result Tenant
read_or_foreign none = raise foreign
read_or_foreign (some t) = ok t

unfoldable pub decrypt_with : Option Fernet → Tenant → Result Tenant
decrypt_with none t = ok t
decrypt_with (some f) t = read_or_foreign (decrypt_tenant_fields f t)

unfoldable pub decrypt_tenant : TenancyManager → Tenant → Result Tenant
unfolding decrypt_with
decrypt_tenant m t = decrypt_with m.encryption t

-- destroy_tenant, where it is asked for and soft deletion is off.
unfoldable pub destroy :
    {D : Type 0} → Isolation D → TenancyConfig → Bool → Tenant → D → Result (Unit {0}) × D
destroy isolation config destroy_data t d =
    if destroy_data && not config.enable_soft_delete
    then isolation.destroy_tenant t d
    else (ok tt, d)

-- The end of delete_tenant: the tenant that set_status returns is not used.
unfoldable pub remove :
    {S : Type 0} → TenantStore S → TenancyConfig → ℕ → Text → S → Result (Unit {0}) × S
remove store config now tenant_id s =
    if config.enable_soft_delete
    then (let (r, s') = store.set_status now tenant_id TenantStatus.deleted s in
        elim r [ raise e ↦ (raise e, s') | ok _ ↦ (ok tt, s') ])
    else store.delete tenant_id s

module _ {S D : Type 0} (store : TenantStore S) (isolation : Isolation D) where
  -- From initialize_tenant on. The rollback's own error is logged.
  unfoldable pub provision : TenancyManager → Tenant → World S D → Result Tenant × World S D
  unfolding decrypt_tenant
  provision m created w =
      let (r, d) = isolation.initialize_tenant created w.namespaces in
      elim r [
        | raise e ↦ (
          raise tenancy,
          record { records = (store.delete created.id w.records).1; namespaces = d },
        )
        | ok _ ↦ (decrypt_tenant m created, record w { namespaces = d })
      ]

  unfoldable pub register_tenant :
      TenancyManager → Draw → Request → World S D → Result Tenant × World S D
  unfolding is_tenant encrypted provision
  register_tenant m draw request w =
      let t = new_tenant m.config draw request in
      if validate_tenant_identifier request.identifier && is_tenant t
      then (let (r, s) = store.create (encrypted m.encryption draw.nonce t) w.records in
          elim r [
            | raise e ↦ (raise e, record w { records = s })
            | ok created ↦ provision m created (record w { records = s })
          ])
      else (raise value_error, w)

  unfoldable pub delete_tenant :
      TenancyConfig → ℕ → Text → Bool → World S D → Result (Unit {0}) × World S D
  unfolding destroy remove
  delete_tenant config now tenant_id destroy_data w =
      let (r, s) = store.get_by_id tenant_id w.records in
      elim r [
        | raise e ↦ (raise e, record w { records = s })
        | ok t ↦
            let (destroyed, d) = destroy isolation config destroy_data t w.namespaces in
            elim destroyed [
              | raise e ↦ (raise e, record { records = s; namespaces = d })
              | ok _ ↦
                  let (removed, s') = remove store config now tenant_id s in
                  (removed, record { records = s'; namespaces = d })
            ]
      ]

unfoldable pub suspend_tenant : {S : Type 0} → TenantStore S → ℕ → Text → S → Result Tenant × S
suspend_tenant store now tenant_id s = store.set_status now tenant_id TenantStatus.suspended s

unfoldable pub activate_tenant : {S : Type 0} → TenantStore S → ℕ → Text → S → Result Tenant × S
activate_tenant store now tenant_id s = store.set_status now tenant_id TenantStatus.active s
