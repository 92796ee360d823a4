-- ===== src/Utils/Security.antt =====
-- utils/security.py. Random texts, SHA-256 and str.lower are parameters.
pub mod Masking
use fastapi_tenancy.Prelude.{
  Text, codes, text_eq, is_infix, Option, none, some, List, [], ◌∷◌, ◌++◌, Bool, false, ◌||◌,
  if◌then◌else◌,
}
use fastapi_tenancy.Prelude.Dict.{Dict}
use fastapi_tenancy.Core.Types.{Json, str}
use fastapi_tenancy.Utils.Chars.{is_empty}

-- `random` is secrets.token_urlsafe(12).
unfoldable pub generate_tenant_id : Text → Text → Text
generate_tenant_id prefix random = prefix ++ (codes "-" ++ random)

unfoldable pub constant_time_compare : Text → Text → Bool
constant_time_compare value1 value2 = text_eq value1 value2

-- `digest` is the hex digest of SHA-256.
unfoldable pub hash_value : (Text → Text) → Text → Option Text → Text
hash_value digest value none = digest value
hash_value digest value (some salt) = if is_empty salt then digest value else digest (salt ++ value)

abbrev pub default_sensitive_keys : List Text
default_sensitive_keys =
    codes "password"
    ∷ codes "secret"
    ∷ codes "token"
    ∷ codes "api_key"
    ∷ codes "apikey"
    ∷ codes "database_url"
    ∷ codes "connection_string"
    ∷ codes "private_key"
    ∷ codes "access_token"
    ∷ codes "refresh_token"
    ∷ codes "encryption_key"
    ∷ codes "jwt_secret"
    ∷ []

-- any(sensitive in key_lower for sensitive in sensitive_keys)
unfoldable pub is_sensitive : List Text → Text → Bool
is_sensitive [] key_lower = false
is_sensitive (s ∷ rest) key_lower =
    let later = is_sensitive rest key_lower in is_infix s key_lower || later

unfoldable pub mask_loop : (Text → Text) → List Text → Text → Dict Json → Dict Json
mask_loop lower sensitive_keys mask [] = []
mask_loop lower sensitive_keys mask ((key, value) ∷ rest) =
    (key, if is_sensitive sensitive_keys (lower key) then str mask else value)
    ∷ mask_loop lower sensitive_keys mask rest

abbrev pub or_default : Option (List Text) → List Text
or_default none = default_sensitive_keys
or_default (some keys) = keys

unfoldable pub mask_sensitive_data :
    (Text → Text) → Dict Json → Option (List Text) → Text → Dict Json
mask_sensitive_data lower original sensitive_keys mask =
    mask_loop lower (or_default sensitive_keys) mask original
