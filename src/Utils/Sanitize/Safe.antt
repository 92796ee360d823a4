-- ===== src/Utils/Sanitize/Safe.antt =====
-- utils/_sanitize.py: the sanitiser against the check on schema names.
use fastapi_tenancy.Prelude.{
  ℕ, zero, suc, ◌≡◌, refl, Text, [], ◌∷◌, true, length, all, take, length-take, le→leb, Bool-cases,
  inl, inr, arith, ap, ◌∙◌,
}
use fastapi_tenancy.Utils.Chars.{is_lower, is_word, lstrip, rstrip, strip, replace}
use fastapi_tenancy.Utils.Sanitize.{
  is_alpha, underscore, mask, collapse, lead, or_tenant, core_sanitize_identifier,
}
use fastapi_tenancy.Utils.Validation.{validate_schema_name}
use fastapi_tenancy.Utils.Validation.Grammar.{chomp, is_safe_name, validate_schema_name-eq}

word_underscore : is_word b'_' ≡ true
unfolding is_word
word_underscore = refl

all-mask : (s : Text) → all is_word (mask s) ≡ true
unfolding mask
all-mask [] = refl
all-mask (c ∷ s) = ground (arith, all-mask s, word_underscore)

all-collapse : (s : Text) → all is_word s ≡ true → all is_word (collapse s) ≡ true
unfolding collapse
all-collapse [] h = refl
all-collapse (c ∷ s) h = ground (arith, all-collapse s)

all-lstrip : (s : Text) → all is_word s ≡ true → all is_word (lstrip underscore s) ≡ true
unfolding lstrip
all-lstrip [] h = refl
all-lstrip (c ∷ s) h = ground (arith, all-lstrip s)

all-rstrip : (s : Text) → all is_word s ≡ true → all is_word (rstrip underscore s) ≡ true
unfolding rstrip
all-rstrip [] h = refl
all-rstrip (c ∷ s) h = ground (arith, all-rstrip s)

all-take : (n : ℕ) (s : Text) → all is_word s ≡ true → all is_word (take n s) ≡ true
all-take zero s h = refl
all-take (suc n) [] h = refl
all-take (suc n) (c ∷ s) h = ground (arith, all-take n s)

chomp-all : (s : Text) → all is_word s ≡ true → chomp s ≡ s
unfolding chomp
chomp-all [] h = refl
chomp-all (c ∷ []) h = unfold is_word in ground arith
chomp-all (c ∷ d ∷ s) h = ap (◌∷◌ c) (chomp-all (d ∷ s) (ground arith))

lower_of_alpha : (c : ℕ) → is_word c ≡ true → is_alpha c ≡ true → is_lower c ≡ true
unfolding is_word is_lower is_alpha
lower_of_alpha c h k = ground arith

word_t : is_word b't' ≡ true
unfolding is_word
word_t = refl

lower_t : is_lower b't' ≡ true
unfolding is_lower
lower_t = refl

-- A word text that begins with a letter, cut to 63 characters, is a safe name.
take-IsSafe :
    (c : ℕ) (s : Text)
    → is_lower c ≡ true
    → all is_word s ≡ true
    → is_safe_name (take 63 (c ∷ s)) ≡ true
unfolding is_safe_name
take-IsSafe c s h k =
    rw (h, all-take 62 s k, le→leb (length (take 62 s)) 62 (omega (arith, length-take 62 s)))

lead-IsSafe : (s : Text) → all is_word s ≡ true → is_safe_name (take 63 (or_tenant (lead s))) ≡ true
unfolding lead or_tenant
lead-IsSafe [] h = unfold is_safe_name is_word is_lower in refl
lead-IsSafe (c ∷ s) h = elim (Bool-cases (is_alpha c)) [
  | inl letter ↦ rw letter (take-IsSafe c s (lower_of_alpha c (ground arith) letter) (ground arith))
  | inr other ↦ rw other (take-IsSafe b't' (b'_' ∷ c ∷ s) lower_t (ground (arith, word_underscore)))
]

all-lead : (s : Text) → all is_word s ≡ true → all is_word (or_tenant (lead s)) ≡ true
unfolding lead or_tenant
all-lead [] h = unfold is_word in refl
all-lead (c ∷ s) h = ground (arith, word_underscore, word_t)

-- Whatever the input and whatever lower() does, the sanitised name passes validate_schema_name.
pub sanitize-IsSafe :
    (lower : Text → Text) (s : Text)
    → validate_schema_name (core_sanitize_identifier lower s) ≡ true
unfolding core_sanitize_identifier strip
sanitize-IsSafe lower s =
    let u : Text = mask (replace b'.' b'_' (replace b'-' b'_' (lower s))) in
    let w = all-rstrip _ (all-lstrip _ (all-collapse u (all-mask _))) in
    validate_schema_name-eq _
    ∙ ap is_safe_name (chomp-all _ (all-take 63 _ (all-lead _ w)))
    ∙ lead-IsSafe _ w
