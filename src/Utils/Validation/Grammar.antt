-- ===== src/Utils/Validation/Grammar.antt =====
-- The regular expressions against plain descriptions of a name.
use fastapi_tenancy.Prelude.{
  ℕ, zero, suc, ◌+◌, ◌≤◌, ◌≡◌, refl, Text, [], ◌∷◌, Bool, true, false, ◌&&◌, ◌||◌, leb, ltb, ◌==◌,
  ap, sym, ◌∙◌, length, all, if◌then◌else◌, arith,
}
use fastapi_tenancy.Utils.Chars.{newline, is_lower, is_alnum, is_word, is_slug_char}
use fastapi_tenancy.Utils.Validation.{
  max_input_len, class_up_to, pg_ident_re, class_then, tenant_id_re, validate_tenant_identifier,
  validate_schema_name,
}

-- Drops one newline at the end.
unfoldable pub chomp : Text → Text
chomp [] = []
chomp (c ∷ []) = if c == newline then [] else c ∷ []
chomp (c ∷ d ∷ s) = c ∷ chomp (d ∷ s)

abbrev pub last_is : (ℕ → Bool) → Text → Bool
last_is p [] = false
last_is p (c ∷ []) = p c
last_is p (c ∷ d ∷ s) = last_is p (d ∷ s)

-- 1 to 63 characters of [a-z0-9_], the first no digit.
unfoldable pub is_safe_name : Text → Bool
is_safe_name [] = false
is_safe_name (c ∷ s) = (is_lower c || c == b'_') && (all is_word s && leb (length s) 62)

-- 3 to 63 characters of [a-z0-9\-], the first a letter, the last no hyphen.
unfoldable pub is_slug : Text → Bool
is_slug [] = false
is_slug (c ∷ s) =
    is_lower c
    && (all is_slug_char s && last_is is_alnum s)
    && (leb 2 (length s) && leb (length s) 62)

word_newline : is_word newline ≡ false
unfolding is_word
word_newline = refl

alnum_newline : is_alnum newline ≡ false
unfolding is_alnum
alnum_newline = refl

slug_newline : is_slug_char newline ≡ false
unfolding is_slug_char
slug_newline = refl

lower_newline : is_lower newline ≡ false
unfolding is_lower
lower_newline = refl

lower_ne_newline : (c : ℕ) → is_lower c ≡ true → (c == newline) ≡ false
unfolding is_lower
lower_ne_newline c h = ground arith

slug_of_alnum : (c : ℕ) → is_alnum c ≡ true → is_slug_char c ≡ true
unfolding is_slug_char
slug_of_alnum c h = ground arith

class_up_to-eq :
    (p : ℕ → Bool) (n : ℕ) (s : Text)
    → p newline ≡ false
    → class_up_to p n s ≡ (all p (chomp s) && leb (length (chomp s)) n)
unfolding class_up_to chomp
class_up_to-eq p zero [] h = refl
class_up_to-eq p zero (c ∷ []) h = ground arith
class_up_to-eq p zero (c ∷ d ∷ s) h = ground arith
class_up_to-eq p (suc n) [] h = ground arith
class_up_to-eq p (suc n) (c ∷ []) h = ground (arith, class_up_to-eq p n [] h)
class_up_to-eq p (suc n) (c ∷ d ∷ s) h = ground (arith, class_up_to-eq p n (d ∷ s) h)

class_then-eq :
    (p q : ℕ → Bool) (n : ℕ) (s : Text)
    → p newline ≡ false
    → q newline ≡ false
    → ((c : ℕ) → q c ≡ true → p c ≡ true)
    → class_then p q n s
      ≡ (all p (chomp s) && (last_is q (chomp s) && leb (length (chomp s)) (n + 1)))
unfolding class_then chomp
class_then-eq p q zero [] h k i = refl
class_then-eq p q zero (c ∷ []) h k i = ground (arith, i c)
class_then-eq p q zero (c ∷ d ∷ []) h k i = ground (arith, i c)
class_then-eq p q zero (c ∷ d ∷ e ∷ s) h k i = ground arith
class_then-eq p q (suc n) [] h k i = refl
class_then-eq p q (suc n) (c ∷ []) h k i = ground (arith, class_then-eq p q n [] h k i, i c)
class_then-eq p q (suc n) (c ∷ d ∷ s) h k i = ground (arith, class_then-eq p q n (d ∷ s) h k i, i c)

length-chomp-le : (s : Text) → (length (chomp s) ≤ length s) × (length s ≤ length (chomp s) + 1)
unfolding chomp
length-chomp-le [] = omega arith
length-chomp-le (c ∷ []) = ground arith
length-chomp-le (c ∷ d ∷ s) = omega (arith, length-chomp-le (d ∷ s))

-- The cap on the input's length changes nothing: a longer text fails the pattern.
capped :
    (s b : Text) (r : Bool)
    → length s ≤ length b + 1
    → (r ≡ true → length b ≤ 63)
    → (if ltb max_input_len (length s) then false else r) ≡ r
capped s b r h k = ground arith

pg_ident_re-eq : (s : Text) → pg_ident_re s ≡ is_safe_name (chomp s)
unfolding pg_ident_re is_safe_name chomp
pg_ident_re-eq [] = refl
pg_ident_re-eq (c ∷ []) = ground (arith, lower_ne_newline c)
pg_ident_re-eq (c ∷ d ∷ s) = ground (arith, class_up_to-eq is_word 62 (d ∷ s) word_newline)

is_safe_name-le : (s : Text) → is_safe_name s ≡ true → length s ≤ 63
unfolding is_safe_name
is_safe_name-le [] h = omega arith
is_safe_name-le (c ∷ s) h = ground arith

-- A schema name passes exactly when, but for one newline at its end, it has 1 to 63 characters of
-- [a-z0-9_] and the first is no digit.
pub validate_schema_name-eq : (s : Text) → validate_schema_name s ≡ is_safe_name (chomp s)
unfolding validate_schema_name
validate_schema_name-eq [] = unfold chomp is_safe_name in refl
validate_schema_name-eq (c ∷ s) =
    let e = pg_ident_re-eq (c ∷ s) in
    capped (c ∷ s) (chomp (c ∷ s)) _ (length-chomp-le (c ∷ s)).1
      (λ h. is_safe_name-le _ (sym e ∙ h))
    ∙ e

is_slug-cons :
    (c d : ℕ) (t : Text)
    → (is_lower c
        && is_slug_char d
        && (all is_slug_char t && (last_is is_alnum t && leb (length t) 61)))
      ≡ is_slug (c ∷ d ∷ t)
unfolding is_slug
is_slug-cons c d [] = ground arith
is_slug-cons c d (x ∷ t) = ground arith

tenant_id_re-eq : (s : Text) → tenant_id_re s ≡ is_slug (chomp s)
unfolding tenant_id_re is_slug chomp
tenant_id_re-eq [] = refl
tenant_id_re-eq (c ∷ []) = ground arith
tenant_id_re-eq (c ∷ d ∷ []) = ground arith
tenant_id_re-eq (c ∷ d ∷ e ∷ s) =
    ap (λ r. is_lower c && is_slug_char d && r)
      (class_then-eq is_slug_char is_alnum 60 (e ∷ s) slug_newline alnum_newline slug_of_alnum)
    ∙ is_slug-cons c d (chomp (e ∷ s))

is_slug-le : (s : Text) → is_slug s ≡ true → length s ≤ 63
unfolding is_slug
is_slug-le [] h = omega arith
is_slug-le (c ∷ s) h = ground arith

-- A tenant identifier passes exactly when, but for one newline at its end, it has 3 to 63
-- characters of [a-z0-9\-], the first a letter and the last no hyphen.
pub validate_tenant_identifier-eq : (s : Text) → validate_tenant_identifier s ≡ is_slug (chomp s)
unfolding validate_tenant_identifier
validate_tenant_identifier-eq [] = unfold chomp is_slug in refl
validate_tenant_identifier-eq (c ∷ s) =
    let e = tenant_id_re-eq (c ∷ s) in
    capped (c ∷ s) (chomp (c ∷ s)) _ (length-chomp-le (c ∷ s)).1 (λ h. is_slug-le _ (sym e ∙ h)) ∙ e
