-- ===== src/Utils/Sanitize.antt =====
-- utils/_sanitize.py. Python's str.lower is a parameter; the first character, when it is tested, is
-- in [a-z0-9_], where isalpha is the range a-z.
pub mod Safe
use fastapi_tenancy.Prelude.{
  ℕ, Text, codes, List, [], ◌∷◌, ◌++◌, Bool, true, false, ◌&&◌, ◌||◌, leb, ◌==◌, take, map,
  if◌then◌else◌,
}
use fastapi_tenancy.Utils.Chars.{is_lower, is_word, is_empty, replace, strip}

unfoldable pub is_alpha : ℕ → Bool
unfolding is_lower
is_alpha c = is_lower c || leb b'A' c && leb c b'Z'

abbrev pub underscore : ℕ → Bool
underscore c = c == b'_'

abbrev pub starts_with_underscore : Text → Bool
starts_with_underscore [] = false
starts_with_underscore (c ∷ s) = underscore c

-- re.sub(r"[^a-z0-9_]", "_", s)
unfoldable pub mask : Text → Text
mask = map (λ c. if is_word c then c else b'_')

-- re.sub(r"_+", "_", s)
unfoldable pub collapse : Text → Text
collapse [] = []
collapse (c ∷ s) =
    let rest = collapse s in if underscore c && starts_with_underscore rest then rest else c ∷ rest

-- if s and not s[0].isalpha(): s = f"t_{s}"
unfoldable pub lead : Text → Text
lead [] = []
lead (c ∷ s) = if is_alpha c then c ∷ s else b't' ∷ b'_' ∷ c ∷ s

-- s or "tenant"
unfoldable pub or_tenant : Text → Text
or_tenant [] = codes "tenant"
or_tenant (c ∷ s) = c ∷ s

unfoldable pub core_sanitize_identifier : (Text → Text) → Text → Text
core_sanitize_identifier lower identifier =
    let s = replace b'.' b'_' (replace b'-' b'_' (lower identifier)) in
    take 63 (or_tenant (lead (strip underscore (collapse (mask s)))))

unfoldable pub sanitize_identifier : (Text → Text) → Text → Text
sanitize_identifier lower identifier = core_sanitize_identifier lower identifier
