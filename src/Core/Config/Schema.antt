-- ===== src/Core/Config/Schema.antt =====
-- core/config.py: get_schema_name on two tenants.
use fastapi_tenancy.Prelude.{
  drop-append, ◌≡◌, refl, sym, ◌∙◌, Text, [], ◌∷◌, true, ◌==◌, map, length, all, drop, arith,
  if◌then◌else◌,
}
use fastapi_tenancy.Core.Config.{TenancyConfig, get_schema_name}
use fastapi_tenancy.Core.Exceptions.{ok}
use fastapi_tenancy.Utils.Chars.{is_slug_char, replace}
use fastapi_tenancy.Utils.Validation.Plain.{plain, valid-plain}

-- Turns the underscores back.
abbrev restore : Text → Text
restore = map (λ c. if c == b'_' then b'-' else c)

restore-replace :
    (s : Text) → all plain s ≡ true → restore (replace b'.' b'_' (replace b'-' b'_' s)) ≡ s
unfolding replace is_slug_char
restore-replace [] h = refl
restore-replace (c ∷ s) h = ground (arith, restore-replace s)

get_schema_name-ok :
    (config : TenancyConfig) (s : Text) {n : Text}
    → get_schema_name config s ≡ ok n
    → restore (drop (length config.schema_prefix) n) ≡ s
unfolding get_schema_name
get_schema_name-ok config s h = ground (
  arith,
  valid-plain s,
  drop-append config.schema_prefix (replace b'.' b'_' (replace b'-' b'_' s)),
  restore-replace s,
)

-- Two identifiers with the same schema name are equal.
pub get_schema_name_injective :
    (config : TenancyConfig) (a b n : Text)
    → get_schema_name config a ≡ ok n
    → get_schema_name config b ≡ ok n
    → a ≡ b
get_schema_name_injective config a b n h k =
    sym (get_schema_name-ok config a h) ∙ get_schema_name-ok config b k
