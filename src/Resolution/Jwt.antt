-- ===== src/Resolution/Jwt.antt =====
-- resolution/jwt.py: JWTTenantResolver. PyJWT is a parameter: what its decode returns or raises for
-- a token, a key, an algorithm and an audience.
pub mod Trust
use fastapi_tenancy.Prelude.{
  Text, codes, Option, none, some, List, [], ◌∷◌, Bool, starts_with, length, drop, if◌then◌else◌,
}
use fastapi_tenancy.Core.Types.{Tenant, Json, null, bool, int, float, str, arr, obj, jwt}
use fastapi_tenancy.Core.Exceptions.{
  Result, ok, raise, tenant_resolution, auth_missing, auth_scheme, token_empty, token_expired,
  token_audience, token_invalid, claim_missing, claim_invalid, ◌>>=◌,
}
use fastapi_tenancy.Utils.Chars.{is_empty, strip}
use fastapi_tenancy.Utils.Validation.{validate_tenant_identifier}
use fastapi_tenancy.Resolution.Request.{Request, Lookup, or_blank, is_space}

-- The outcomes of jwt.decode that the resolver tells apart; a payload is read by claim.
pub data Decoded : Type 0 where
  payload : (Text → Option Json) → Decoded
  expired_signature : Decoded
  invalid_audience : Decoded
  invalid_token : Decoded

-- token, key, algorithm, audience
abbrev pub Decode : Type 0
Decode = Text → Text → Text → Option Text → Decoded

pub record JwtTenantResolver : Type 0 where
  pub secret : Text
  pub algorithm : Text
  pub tenant_claim : Text
  pub audience : Option Text

unfoldable pub decode_token : Decode → JwtTenantResolver → Text → Result (Text → Option Json)
decode_token decode r token = elim (decode token r.secret r.algorithm r.audience) [
  | payload p ↦ ok p
  | expired_signature ↦ raise (tenant_resolution token_expired jwt)
  | invalid_audience ↦ raise (tenant_resolution token_audience jwt)
  | invalid_token ↦ raise (tenant_resolution token_invalid jwt)
]

-- The claim, if it is a text that is not empty.
unfoldable pub claim_text : Option Json → Option Text
claim_text none = none
claim_text (some (str [])) = none
claim_text (some (str (c ∷ s))) = some (c ∷ s)
claim_text (some j) = none

unfoldable pub read_claim : JwtTenantResolver → (Text → Option Json) → Result Text
read_claim r p = elim (claim_text (p r.tenant_claim)) [
  | none ↦ raise (tenant_resolution (claim_missing r.tenant_claim) jwt)
  | some identifier ↦
      if validate_tenant_identifier identifier
      then ok identifier
      else raise (tenant_resolution (claim_invalid r.tenant_claim) jwt)
]

-- The token of the Authorization header.
unfoldable pub bearer_token : Request → Result Text
bearer_token request =
    let auth = or_blank (request.headers (codes "authorization")) in
    let token = strip is_space (drop (length (codes "Bearer ")) auth) in
    if is_empty auth
    then raise (tenant_resolution auth_missing jwt)
    else if starts_with (codes "Bearer ") auth
    then (if is_empty token then raise (tenant_resolution token_empty jwt) else ok token)
    else raise (tenant_resolution auth_scheme jwt)

unfoldable pub resolve : Decode → Lookup → JwtTenantResolver → Request → Result Tenant
resolve decode get_by_identifier r request = do
  token ← bearer_token request
  p ← decode_token decode r token
  identifier ← read_claim r p
  get_by_identifier identifier
