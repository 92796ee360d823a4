-- ===== src/Utils/Validation/Plain.antt =====
-- The characters of a valid tenant identifier.
use fastapi_tenancy.Prelude.{
  ℕ, ◌≡◌, refl, sym, ◌∙◌, Text, [], ◌∷◌, Bool, true, false, ◌||◌, ◌==◌, all, arith,
}
use fastapi_tenancy.Utils.Chars.{newline, is_slug_char, is_lower, has_char}
use fastapi_tenancy.Utils.Validation.{validate_tenant_identifier}
use fastapi_tenancy.Utils.Validation.Grammar.{chomp, is_slug, validate_tenant_identifier-eq}

abbrev pub plain : ℕ → Bool
plain c = is_slug_char c || c == newline

plain-chomp : (s : Text) → all is_slug_char (chomp s) ≡ true → all plain s ≡ true
unfolding chomp
plain-chomp [] h = refl
plain-chomp (c ∷ []) h = ground arith
plain-chomp (c ∷ d ∷ s) h = ground (arith, plain-chomp (d ∷ s))

slug_of_lower : (c : ℕ) → is_lower c ≡ true → is_slug_char c ≡ true
unfolding is_slug_char
slug_of_lower c h = ground arith

slug-plain : (s : Text) → is_slug s ≡ true → all is_slug_char s ≡ true
unfolding is_slug
slug-plain [] h = refl
slug-plain (c ∷ s) h = ground (arith, slug_of_lower c)

pub valid-plain : (s : Text) → validate_tenant_identifier s ≡ true → all plain s ≡ true
valid-plain s h = plain-chomp s (slug-plain _ (sym (validate_tenant_identifier-eq s) ∙ h))

all-lacks : (x : ℕ) (s : Text) → plain x ≡ false → all plain s ≡ true → has_char x s ≡ false
unfolding has_char
all-lacks x [] h k = refl
all-lacks x (c ∷ s) h k = ground (arith, all-lacks x s)

-- A valid identifier has no character but those of a slug and, at its end, a newline.
pub valid-lacks :
    (x : ℕ) (s : Text)
    → plain x ≡ false
    → validate_tenant_identifier s ≡ true
    → has_char x s ≡ false
valid-lacks x s h k = all-lacks x s h (valid-plain s k)
