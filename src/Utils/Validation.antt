-- ===== src/Utils/Validation.antt =====
-- utils/validation.py: the two regular expressions and the validators. `$` matches at the end and
-- before a newline at the end, as in Python's re.
pub mod Grammar
pub mod Plain
use fastapi_tenancy.Prelude.{
  ℕ, zero, suc, ◌-◌, Text, List, [], ◌∷◌, Bool, true, false, ◌&&◌, ◌||◌, ltb, ◌==◌, length,
  if◌then◌else◌,
}
use fastapi_tenancy.Core.Exceptions.{Result, ok, raise, value_error}
use fastapi_tenancy.Utils.Chars.{newline, is_lower, is_alnum, is_word, is_slug_char, is_empty}

abbrev pub max_input_len : ℕ
max_input_len = 512

abbrev pub at_end : Text → Bool
at_end [] = true
at_end (c ∷ []) = c == newline
at_end (c ∷ d ∷ s) = false

-- p{0,n}$
pub class_up_to : (ℕ → Bool) → ℕ → Text → Bool
class_up_to p zero s = at_end s
class_up_to p (suc n) [] = true
class_up_to p (suc n) (c ∷ s) = at_end (c ∷ s) || p c && class_up_to p n s

-- ^[a-z_][a-z0-9_]{0,62}$
pub pg_ident_re : Text → Bool
unfolding class_up_to
pg_ident_re [] = false
pg_ident_re (c ∷ s) = (is_lower c || c == b'_') && class_up_to is_word 62 s

-- q$
abbrev pub last_in : (ℕ → Bool) → Text → Bool
last_in q [] = false
last_in q (c ∷ s) = q c && at_end s

-- p{0,n}q$
pub class_then : (ℕ → Bool) → (ℕ → Bool) → ℕ → Text → Bool
class_then p q zero s = last_in q s
class_then p q (suc n) [] = false
class_then p q (suc n) (c ∷ s) = last_in q (c ∷ s) || p c && class_then p q n s

-- ^[a-z][a-z0-9\-]{1,61}[a-z0-9]$
pub tenant_id_re : Text → Bool
unfolding class_then
tenant_id_re [] = false
tenant_id_re (a ∷ []) = false
tenant_id_re (a ∷ b ∷ s) = is_lower a && is_slug_char b && class_then is_slug_char is_alnum 60 s

unfoldable pub validate_tenant_identifier : Text → Bool
unfolding tenant_id_re
validate_tenant_identifier s =
    if is_empty s then false else if ltb max_input_len (length s) then false else tenant_id_re s

unfoldable pub validate_schema_name : Text → Bool
unfolding pg_ident_re
validate_schema_name s =
    if is_empty s then false else if ltb max_input_len (length s) then false else pg_ident_re s

unfoldable pub validate_database_name : Text → Bool
validate_database_name s = validate_schema_name s

unfoldable pub assert_safe_schema_name : Text → Result (Unit {0})
assert_safe_schema_name s = if validate_schema_name s then ok tt else raise value_error

unfoldable pub assert_safe_database_name : Text → Result (Unit {0})
assert_safe_database_name s = if validate_database_name s then ok tt else raise value_error
