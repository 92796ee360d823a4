-- ===== src/Resolution/Jwt/Trust.antt =====
-- resolution/jwt.py: the results of the resolver against what PyJWT accepts.
use fastapi_tenancy.Prelude.{◌≡◌, ◌↔◌, refl, Text, Option, some, [], ◌∷◌, true, arith}
use fastapi_tenancy.Core.Types.{Tenant, Json, str}
use fastapi_tenancy.Core.Exceptions.{ok, bind-ok}
use fastapi_tenancy.Utils.Validation.{validate_tenant_identifier}
use fastapi_tenancy.Resolution.Request.{Request, Lookup}
use fastapi_tenancy.Resolution.Jwt.{
  payload, Decode, JwtTenantResolver, decode_token, claim_text, read_claim, bearer_token, resolve,
}

-- The request carries `token`, PyJWT accepts it for the resolver's key, algorithm and audience, and
-- the configured claim of its payload is the valid identifier `i`.
pub record Carries (decode : Decode) (r : JwtTenantResolver) (request : Request) (i : Text)
    : Type 0 where
  pub token : Text
  pub claims : Text → Option Json
  pub bearer : bearer_token request ≡ ok token
  pub accepted : decode token r.secret r.algorithm r.audience ≡ payload claims
  pub claimed : claims r.tenant_claim ≡ some (str i)
  pub valid : validate_tenant_identifier i ≡ true

decode_token-ok :
    (decode : Decode) (r : JwtTenantResolver) (token : Text) (p : Text → Option Json)
    → decode_token decode r token ≡ ok p
    → decode token r.secret r.algorithm r.audience ≡ payload p
unfolding decode_token
decode_token-ok decode r token p h = ground arith

decode_token-accepted :
    (decode : Decode) (r : JwtTenantResolver) (token : Text) (p : Text → Option Json)
    → decode token r.secret r.algorithm r.audience ≡ payload p
    → decode_token decode r token ≡ ok p
unfolding decode_token
decode_token-accepted decode r token p h = ground arith

claim_text-some : (j : Option Json) (i : Text) → claim_text j ≡ some i → j ≡ some (str i)
unfolding claim_text
claim_text-some j i h = ground arith

read_claim-ok :
    (r : JwtTenantResolver) (p : Text → Option Json) (i : Text)
    → read_claim r p ≡ ok i
    → (p r.tenant_claim ≡ some (str i)) × (validate_tenant_identifier i ≡ true)
unfolding read_claim
read_claim-ok r p i h = (ground (arith, claim_text-some (p r.tenant_claim) i), ground arith)

claim_text-valid :
    (i : Text) → validate_tenant_identifier i ≡ true → claim_text (some (str i)) ≡ some i
unfolding claim_text validate_tenant_identifier
claim_text-valid [] h = cc
claim_text-valid (c ∷ i) h = refl

read_claim-valid :
    (r : JwtTenantResolver) (p : Text → Option Json) (i : Text)
    → p r.tenant_claim ≡ some (str i)
    → validate_tenant_identifier i ≡ true
    → read_claim r p ≡ ok i
unfolding read_claim
read_claim-valid r p i h v = ground (arith, claim_text-valid i v)

-- The resolver returns a tenant exactly when the request carries an accepted token whose claim is a
-- valid identifier under which the store finds that tenant.
pub resolve_jwt_iff :
    (decode : Decode) (get_by_identifier : Lookup) (r : JwtTenantResolver) (request : Request)
    (t : Tenant)
    → (resolve decode get_by_identifier r request ≡ ok t)
      ↔ ((i : Text) × Carries decode r request i × (get_by_identifier i ≡ ok t))
unfolding resolve
resolve_jwt_iff decode get_by_identifier r request t = (
  λ h.
      let (token, p, h1) = bind-ok (bearer_token request) _ h in
      let (claims, q, h2) = bind-ok (decode_token decode r token) _ h1 in
      let (i, s, found) = bind-ok (read_claim r claims) _ h2 in
      let (claimed, valid) = read_claim-ok r claims i s in
      (
        i,
        record {
          token = token;
          claims = claims;
          bearer = p;
          accepted = decode_token-ok decode r token claims q;
          claimed = claimed;
          valid = valid;
        },
        found,
      ),
  λ n.
      let (i, c, found) = n in
      rw
        (
          c.bearer,
          decode_token-accepted decode r c.token c.claims c.accepted,
          read_claim-valid r c.claims i c.claimed c.valid,
        )
        found,
)
