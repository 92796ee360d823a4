-- ===== src/Utils/Security/Masking.antt =====
-- utils/security.py: what mask_sensitive_data returns under each key.
use fastapi_tenancy.Prelude.{
  ◌≡◌, Text, Option, none, some, List, [], ◌∷◌, if◌then◌else◌, arith, refl,
}
use fastapi_tenancy.Prelude.Dict.{Dict, get}
use fastapi_tenancy.Core.Types.{Json, str}
use fastapi_tenancy.Utils.Security.{is_sensitive, mask_loop, or_default, mask_sensitive_data}

-- The value under a key, masked if its key is sensitive.
abbrev pub shown : (Text → Text) → List Text → Text → Text → Option Json → Option Json
shown lower keys mask key none = none
shown lower keys mask key (some value) =
    some (if is_sensitive keys (lower key) then str mask else value)

get-mask_loop :
    (lower : Text → Text) (keys : List Text) (mask key : Text) (d : Dict Json)
    → get key (mask_loop lower keys mask d) ≡ shown lower keys mask key (get key d)
unfolding mask_loop get
get-mask_loop lower keys mask key [] = refl
get-mask_loop lower keys mask key ((j, v) ∷ d) = ground (arith, get-mask_loop lower keys mask key d)

-- The result has the keys of the original; under a sensitive key it has the mask, and under any other
-- the value that was there.
pub get-mask_sensitive_data :
    (lower : Text → Text) (original : Dict Json) (keys : Option (List Text)) (mask key : Text)
    → get key (mask_sensitive_data lower original keys mask)
      ≡ shown lower (or_default keys) mask key (get key original)
unfolding mask_sensitive_data
get-mask_sensitive_data lower original keys mask key =
    get-mask_loop lower (or_default keys) mask key original
