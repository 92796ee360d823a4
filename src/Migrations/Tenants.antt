-- ===== src/Migrations/Tenants.antt =====
-- migrations/manager.py: the operations on one tenant. `available` says whether Alembic is installed,
-- and `current` is what its command prints, where it does not fail; is_space is for str.strip.
use fastapi_tenancy.Prelude.{ℕ, Text, [], ◌∷◌, Option, none, some, Bool, true, false}
use fastapi_tenancy.Prelude.Dict.{Dict}
use fastapi_tenancy.Core.Types.{Tenant}
use fastapi_tenancy.Core.Config.{TenancyConfig}
use fastapi_tenancy.Core.Exceptions.{Result, ok, raise}
use fastapi_tenancy.Migrations.{
  upgrade, downgrade, Outcome, Alembic, build_alembic_args, run_migration,
}
use fastapi_tenancy.Utils.Chars.{strip}

module _ (lower : Text → Text) (format : Text → Text → Text → Text) (config : TenancyConfig) where
  -- A failure is a MigrationError.
  unfoldable pub upgrade_tenant : Alembic → Tenant → Text → Outcome
  unfolding build_alembic_args run_migration
  upgrade_tenant alembic t revision =
      run_migration alembic upgrade revision (build_alembic_args lower format config t)

  unfoldable pub downgrade_tenant : Alembic → Tenant → Text → Outcome
  unfolding build_alembic_args run_migration
  downgrade_tenant alembic t revision =
      run_migration alembic downgrade revision (build_alembic_args lower format config t)

  module _ (available : Bool) (current : Dict Text → Option Text) (is_space : ℕ → Bool) where
    -- output.getvalue().strip() or None
    abbrev pub or_nothing : Text → Option Text
    or_nothing [] = none
    or_nothing (c ∷ s) = some (c ∷ s)

    abbrev pub printed : Option Text → Option Text
    printed none = none
    printed (some output) = or_nothing (strip is_space output)

    -- The arguments are built outside its try.
    unfoldable pub get_current_revision_sync : Tenant → Result (Option Text)
    unfolding build_alembic_args strip
    get_current_revision_sync t = elim available [
      | false ↦ ok none
      | true ↦ elim (build_alembic_args lower format config t) [
        | raise e ↦ raise e
        | ok args ↦ ok (printed (current args))
      ]
    ]

    unfoldable pub get_current_revision : Tenant → Option Text
    unfolding get_current_revision_sync
    get_current_revision t = elim (get_current_revision_sync t) [
      | raise e ↦ none
      | ok revision ↦ revision
    ]
