-- ===== src/Isolation/Database/Collision.antt =====
-- Distinct tenant identifiers with the same database name.
use fastapi_tenancy.Prelude.{◌≡◌, ap, Text, [], ◌∷◌, ◌++◌, codes, arith, take}
use fastapi_tenancy.Core.Types.{Tenant}
use fastapi_tenancy.Utils.Chars.{is_word, replace, strip}
use fastapi_tenancy.Utils.Sanitize.{
  underscore, mask, collapse, lead, or_tenant, core_sanitize_identifier, sanitize_identifier,
}
use fastapi_tenancy.Isolation.Database.{database_name}

-- The text after the three character-wise replacements.
abbrev marked : Text → Text
marked s = mask (replace b'.' b'_' (replace b'-' b'_' s))

collapse-hyphens :
    (a b : Text) → collapse (marked (a ++ b'-' ∷ b'-' ∷ b)) ≡ collapse (marked (a ++ b'-' ∷ b))
unfolding collapse mask replace is_word
collapse-hyphens [] b = ground arith
collapse-hyphens (c ∷ a) b = ground (arith, collapse-hyphens a b)

-- Two tenants get the same database name when the identifier of one is that of the other with a
-- hyphen doubled, provided that lower() leaves both alone.
pub database_name_collision :
    (lower : Text → Text) (a b : Text) (s t : Tenant)
    → s.identifier ≡ a ++ b'-' ∷ b
    → t.identifier ≡ a ++ b'-' ∷ b'-' ∷ b
    → lower s.identifier ≡ s.identifier
    → lower t.identifier ≡ t.identifier
    → database_name lower t ≡ database_name lower s
unfolding database_name sanitize_identifier core_sanitize_identifier
database_name_collision lower a b s t p q h k =
    rw (h, k, p, q)
      (ap (λ u. codes "tenant_" ++ (take 63 (or_tenant (lead (strip underscore u))) ++ codes "_db"))
        (collapse-hyphens a b))
