-- ===== src/Tests/UtilsTests.antt =====
-- Encryption and masking.
use fastapi_tenancy.Prelude.{
  ◌≡◌, Text, codes, Option, none, some, [], ◌∷◌, refl, starts_with, is_infix, false, ◌++◌,
}
use fastapi_tenancy.Core.Types.{Tenant, str}
use fastapi_tenancy.Utils.Encryption.{
  Fernet, is_encrypted, encrypt_tenant_fields, decrypt_tenant_fields,
}
use fastapi_tenancy.Utils.Encryption.RoundTrip.{Reads, decrypt_tenant_fields-encrypt_tenant_fields}
use fastapi_tenancy.Core.Config.Printing.{mask_passwords}
use fastapi_tenancy.Core.Config.Printing.Credentials.{
  Avoids, mask_passwords-authority, mask_passwords-shown,
}
use fastapi_tenancy.Tests.Samples.{acme}

-- A cipher that writes its random number before the text.
abbrev unmark : Text → Option Text
unmark [] = none
unmark (c ∷ s) = some s

abbrev marking : Fernet
marking = record { encrypt = λ n s. n ∷ s; decrypt = unmark }

marking-Reads : Reads marking
marking-Reads n s = refl

abbrev routed : Tenant
routed = record acme {
  database_url = some (codes "sqlite://x");
  metadata = (codes "_enc_card", str (codes "4242")) ∷ (codes "plan", str (codes "pro")) ∷ [];
}

decrypt_tenant_fields-encrypt_tenant_fields_example :
    decrypt_tenant_fields marking (encrypt_tenant_fields marking 7 routed) ≡ some routed
unfolding is_encrypted starts_with
decrypt_tenant_fields-encrypt_tenant_fields_example =
    decrypt_tenant_fields-encrypt_tenant_fields marking 7 routed marking-Reads refl
      (refl, (refl, tt))

-- The beginning of a representation, up to the colon of the first URL; the fields between the two
-- URLs are fewer than in a full one.
abbrev opening : Text
opening =
    codes
      "TenancyConfig(resolution_strategy=<ResolutionStrategy.HEADER: 'header'>, isolation_strategy=<IsolationStrategy.SCHEMA: 'schema'>, database_url='postgresql+asyncpg"

opening_plain : is_infix (codes "://") opening ≡ false
unfolding is_infix starts_with
opening_plain = refl

abbrev between : Text
between = codes "db/app', database_pool_size=20, database_url_template=None, redis_url='redis"

between_plain : is_infix (codes "://") between ≡ false
unfolding is_infix starts_with
between_plain = refl

ann_Avoids : Avoids b':' (codes "ann")
ann_Avoids = (refl, (refl, (refl, tt)))

hunter_Avoids : Avoids b'@' (codes "hunter")
hunter_Avoids = (refl, (refl, (refl, (refl, (refl, (refl, tt))))))

sesame_Avoids : Avoids b':' (codes "sesame")
sesame_Avoids = (refl, (refl, (refl, (refl, (refl, (refl, tt))))))

mask_passwords-authority_example :
    mask_passwords (opening ++ codes "://ann:hunter@db/app', database_pool_size=20)")
    ≡ opening ++ (codes "://ann:***@" ++ mask_passwords (codes "db/app', database_pool_size=20)"))
mask_passwords-authority_example =
    mask_passwords-authority b'a' b'h' opening (codes "nn") (codes "unter")
      (codes "db/app', database_pool_size=20)") opening_plain ann_Avoids hunter_Avoids

mask_passwords-shown_example :
    mask_passwords (
      opening
      ++ (codes "://ann:hunter@" ++ (between ++ codes "://:sesame@cache/0', cache_ttl=3600)")))
    ≡ opening
      ++ (codes "://ann:***@"
          ++ (between
              ++ (codes "://:sesame" ++ mask_passwords (codes "@cache/0', cache_ttl=3600)"))))
mask_passwords-shown_example =
    mask_passwords-shown b'a' b'h' b's' opening (codes "nn") (codes "unter") between (codes "esame")
      (codes "@cache/0', cache_ttl=3600)") opening_plain ann_Avoids hunter_Avoids between_plain refl
      sesame_Avoids
