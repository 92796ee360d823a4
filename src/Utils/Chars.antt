-- ===== src/Utils/Chars.antt =====
-- The character classes of the regular expressions in utils, and Python's text methods on them.
use fastapi_tenancy.Prelude.{
  ℕ, Text, [], ◌∷◌, Bool, true, false, ◌&&◌, ◌||◌, leb, ◌==◌, if◌then◌else◌, map,
}

abbrev pub newline : ℕ
newline = 10

unfoldable pub is_lower : ℕ → Bool
is_lower c = leb b'a' c && leb c b'z'

unfoldable pub is_digit : ℕ → Bool
is_digit c = leb b'0' c && leb c b'9'

unfoldable pub is_alnum : ℕ → Bool
unfolding is_lower is_digit
is_alnum c = is_lower c || is_digit c

-- [a-z0-9_]
unfoldable pub is_word : ℕ → Bool
unfolding is_alnum
is_word c = is_alnum c || c == b'_'

-- [a-z0-9\-]
unfoldable pub is_slug_char : ℕ → Bool
unfolding is_alnum
is_slug_char c = is_alnum c || c == b'-'

abbrev pub is_empty : Text → Bool
is_empty [] = true
is_empty (c ∷ s) = false

-- s.replace(a, b) for single characters
unfoldable pub replace : ℕ → ℕ → Text → Text
replace a b = map (λ c. if c == a then b else c)

unfoldable pub lstrip : (ℕ → Bool) → Text → Text
lstrip p [] = []
lstrip p (c ∷ s) = if p c then lstrip p s else c ∷ s

unfoldable pub rstrip : (ℕ → Bool) → Text → Text
rstrip p [] = []
rstrip p (c ∷ s) = let rest = rstrip p s in if p c && is_empty rest then [] else c ∷ rest

-- s.strip(chars)
unfoldable pub strip : (ℕ → Bool) → Text → Text
unfolding lstrip rstrip
strip p s = rstrip p (lstrip p s)

-- c in s
unfoldable pub has_char : ℕ → Text → Bool
has_char c [] = false
has_char c (d ∷ s) = let rest = has_char c s in d == c || rest
