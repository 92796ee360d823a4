-- ===== src/Utils/Encryption/RoundTrip.antt =====
-- utils/encryption.py: decryption after encryption, and encryption twice.
use fastapi_tenancy.Prelude.{
  ◌≡◌, refl, ap₂, ℕ, ◌+◌, Text, starts_with, Option, none, some, [], ◌∷◌, true, false, ◌&&◌, arith,
}
use fastapi_tenancy.Prelude.Dict.{Dict}
use fastapi_tenancy.Core.Types.{Tenant, Json, str}
use fastapi_tenancy.Utils.Chars.{is_empty}
use fastapi_tenancy.Utils.Encryption.{
  Fernet, enc_metadata_prefix, is_encrypted, encrypt, decrypt, encrypt_url, encrypt_value,
  encrypt_metadata, encrypt_tenant_fields, decrypt_url, decrypt_value, decrypt_metadata,
  decrypt_tenant_fields,
}

encrypt-is_encrypted : (f : Fernet) (n : ℕ) (s : Text) → is_encrypted (encrypt f n s) ≡ true
unfolding encrypt is_encrypted starts_with
encrypt-is_encrypted f n s = ground arith

encrypt-nonempty : (f : Fernet) (n : ℕ) (s : Text) → is_empty (encrypt f n s) ≡ false
unfolding encrypt is_encrypted starts_with
encrypt-nonempty f n [] = refl
encrypt-nonempty f n (c ∷ s) = ground arith

-- The documented behaviour of Fernet.
abbrev pub Reads : Fernet → Type 0
Reads f = (n : ℕ) (s : Text) → f.decrypt (f.encrypt n s) ≡ some s

decrypt-encrypt :
    (f : Fernet) (n : ℕ) (s : Text)
    → Reads f
    → is_encrypted s ≡ false
    → decrypt f (encrypt f n s) ≡ some s
unfolding decrypt encrypt is_encrypted starts_with
decrypt-encrypt f n s reads p = ground (arith, reads n s)

-- The fields that the methods look at hold no text that looks encrypted.
abbrev pub PlainUrl : Option Text → Type 0
PlainUrl none = Unit
PlainUrl (some url) = is_encrypted url ≡ false

abbrev pub PlainValue : Text → Json → Type 0
PlainValue key (str value) = (starts_with enc_metadata_prefix key && is_encrypted value) ≡ false
PlainValue key value = Unit

abbrev pub PlainMetadata : Dict Json → Type 0
PlainMetadata [] = Unit
PlainMetadata ((key, value) ∷ rest) = PlainValue key value × PlainMetadata rest

url_round_trip :
    (f : Fernet) (n : ℕ) (url : Option Text)
    → Reads f
    → PlainUrl url
    → decrypt_url f (encrypt_url f n url) ≡ some url
unfolding decrypt_url encrypt_url
url_round_trip f n none r p = refl
url_round_trip f n (some url) r p =
    ground
      (arith, decrypt-encrypt f n url r p, encrypt-is_encrypted f n url, encrypt-nonempty f n url)

value_round_trip :
    (f : Fernet) (n : ℕ) (key : Text) (value : Json)
    → Reads f
    → PlainValue key value
    → decrypt_value f key (encrypt_value f n key value) ≡ some value
unfolding decrypt_value encrypt_value
value_round_trip f n key (str value) r p =
    ground (arith, decrypt-encrypt f n value r, encrypt-is_encrypted f n value)
value_round_trip f n key value r p = refl

metadata_round_trip :
    (f : Fernet) (n : ℕ) (d : Dict Json)
    → Reads f
    → PlainMetadata d
    → decrypt_metadata f (encrypt_metadata f n d) ≡ some d
unfolding decrypt_metadata encrypt_metadata
metadata_round_trip f n [] r p = refl
metadata_round_trip f n ((key, value) ∷ d) r p =
    rw (value_round_trip f n key value r p.0, metadata_round_trip f (n + 1) d r p.1) refl

-- What encryption makes of a tenant, decryption with the same key makes the tenant again, provided
-- that none of the fields which they treat holds a text that begins with the mark `enc::`.
pub decrypt_tenant_fields-encrypt_tenant_fields :
    (f : Fernet) (n : ℕ) (t : Tenant)
    → Reads f
    → PlainUrl t.database_url
    → PlainMetadata t.metadata
    → decrypt_tenant_fields f (encrypt_tenant_fields f n t) ≡ some t
unfolding decrypt_tenant_fields encrypt_tenant_fields
decrypt_tenant_fields-encrypt_tenant_fields f n t r p q =
    rw (url_round_trip f n t.database_url r p, metadata_round_trip f (n + 1) t.metadata r q) refl

url_again :
    (f : Fernet) (m n : ℕ) (url : Option Text)
    → encrypt_url f m (encrypt_url f n url) ≡ encrypt_url f n url
unfolding encrypt_url
url_again f m n none = refl
url_again f m n (some url) = ground (arith, encrypt-is_encrypted f n url)

value_again :
    (f : Fernet) (m n : ℕ) (key : Text) (value : Json)
    → encrypt_value f m key (encrypt_value f n key value) ≡ encrypt_value f n key value
unfolding encrypt_value
value_again f m n key (str value) = ground (arith, encrypt-is_encrypted f n value)
value_again f m n key value = refl

metadata_again :
    (f : Fernet) (m n : ℕ) (d : Dict Json)
    → encrypt_metadata f m (encrypt_metadata f n d) ≡ encrypt_metadata f n d
unfolding encrypt_metadata
metadata_again f m n [] = refl
metadata_again f m n ((key, value) ∷ d) =
    ap₂ (λ v r. (key, v) ∷ r) (value_again f m n key value) (metadata_again f (m + 1) (n + 1) d)

-- A second encryption, with any random numbers, changes nothing, and neither does one of a part of
-- the fields before.
pub encrypt_tenant_fields_idempotent :
    (f : Fernet) (m n : ℕ) (t : Tenant)
    → encrypt_tenant_fields f m (encrypt_tenant_fields f n t) ≡ encrypt_tenant_fields f n t
unfolding encrypt_tenant_fields
encrypt_tenant_fields_idempotent f m n t =
    ap₂ (λ u d. record t { database_url = u; metadata = d }) (url_again f m n t.database_url)
      (metadata_again f (m + 1) (n + 1) t.metadata)
