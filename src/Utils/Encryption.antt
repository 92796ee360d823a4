-- ===== src/Utils/Encryption.antt =====
-- utils/encryption.py: TenancyEncryption. Fernet is a parameter: the token that it makes of a text
-- with a random number, and what it reads from a token, nothing for InvalidToken. The random number
-- of each call is given; the loop over the metadata draws them in order.
pub mod RoundTrip
use fastapi_tenancy.Prelude.{
  ℕ, ◌+◌, Text, codes, starts_with, length, drop, Option, none, some, [], ◌∷◌, ◌++◌, Bool, true,
  false, ◌&&◌, not, if◌then◌else◌,
}
use fastapi_tenancy.Prelude.Dict.{Dict}
use fastapi_tenancy.Core.Types.{Tenant, Json, null, bool, int, float, str, arr, obj}
use fastapi_tenancy.Utils.Chars.{is_empty}

pub record Fernet : Type 0 where
  pub encrypt : ℕ → Text → Text
  pub decrypt : Text → Option Text

abbrev pub encrypted_prefix : Text
encrypted_prefix = codes "enc::"

abbrev pub enc_metadata_prefix : Text
enc_metadata_prefix = codes "_enc_"

unfoldable pub is_encrypted : Text → Bool
is_encrypted value = starts_with encrypted_prefix value

unfoldable pub encrypt : Fernet → ℕ → Text → Text
unfolding is_encrypted
encrypt f n plaintext =
    if is_encrypted plaintext then plaintext else encrypted_prefix ++ f.encrypt n plaintext

unfoldable pub decrypt : Fernet → Text → Option Text
unfolding is_encrypted
decrypt f ciphertext =
    if is_encrypted ciphertext
    then f.decrypt (drop (length encrypted_prefix) ciphertext)
    else some ciphertext

-- `url and ...`: an empty text is left as it is.
unfoldable pub encrypt_url : Fernet → ℕ → Option Text → Option Text
encrypt_url f n none = none
encrypt_url f n (some url) =
    if not (is_empty url) && not (is_encrypted url) then some (encrypt f n url) else some url

-- A value of the metadata, with its key.
unfoldable pub encrypt_value : Fernet → ℕ → Text → Json → Json
encrypt_value f n key (str value) =
    if starts_with enc_metadata_prefix key && not (is_encrypted value)
    then str (encrypt f n value)
    else str value
encrypt_value f n key value = value

unfoldable pub encrypt_metadata : Fernet → ℕ → Dict Json → Dict Json
encrypt_metadata f n [] = []
encrypt_metadata f n ((key, value) ∷ rest) =
    (key, encrypt_value f n key value) ∷ encrypt_metadata f (n + 1) rest

unfoldable pub encrypt_tenant_fields : Fernet → ℕ → Tenant → Tenant
encrypt_tenant_fields f n tenant = record tenant {
  database_url = encrypt_url f n tenant.database_url;
  metadata = encrypt_metadata f (n + 1) tenant.metadata;
}

infixl 10 ◌>>=◌
abbrev pub ◌>>=◌ {ℓ κ} : {A : Type ℓ} {B : Type κ} → Option A → (A → Option B) → Option B
none >>= f = none
some a >>= f = f a

unfoldable pub decrypt_url : Fernet → Option Text → Option (Option Text)
decrypt_url f none = some none
decrypt_url f (some url) =
    if not (is_empty url) && is_encrypted url
    then decrypt f url >>= (λ u. some (some u))
    else some (some url)

unfoldable pub decrypt_value : Fernet → Text → Json → Option Json
decrypt_value f key (str value) =
    if starts_with enc_metadata_prefix key && is_encrypted value
    then decrypt f value >>= (λ v. some (str v))
    else some (str value)
decrypt_value f key value = some value

unfoldable pub decrypt_metadata : Fernet → Dict Json → Option (Dict Json)
decrypt_metadata f [] = some []
decrypt_metadata f ((key, value) ∷ rest) =
    let later = decrypt_metadata f rest in
    decrypt_value f key value >>= (λ v. later >>= (λ d. some ((key, v) ∷ d)))

unfoldable pub decrypt_tenant_fields : Fernet → Tenant → Option Tenant
decrypt_tenant_fields f tenant = decrypt_url f tenant.database_url >>= (λ url.
    decrypt_metadata f tenant.metadata
    >>= (λ d. some (record tenant { database_url = url; metadata = d })))

-- from_config: whether encryption is on, and the key that is configured. A key derivation and a
-- Fernet of the key are parameters.
pub data FromConfig : Type 0 where
  disabled : FromConfig
  missing_key : FromConfig
  enabled : Fernet → FromConfig

unfoldable pub from_config : (Text → Fernet) → Bool → Option Text → FromConfig
from_config fernet false key = disabled
from_config fernet true none = missing_key
from_config fernet true (some key) = if is_empty key then missing_key else enabled (fernet key)
