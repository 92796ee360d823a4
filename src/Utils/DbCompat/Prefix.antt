-- ===== src/Utils/DbCompat/Prefix.antt =====
-- utils/db_compat.py: make_table_prefix on identifiers with a common beginning.
use fastapi_tenancy.Prelude.{
  ◌≡◌, refl, sym, ap, ◌∙◌, ℕ, zero, suc, ◌≤◌, Text, codes, starts_with, [], ◌∷◌, ◌++◌, true, false,
  ◌&&◌, ◌==◌, take, all, length, arith,
}
use fastapi_tenancy.Utils.Chars.{
  is_lower, is_digit, is_alnum, is_word, replace, strip, lstrip, rstrip,
}
use fastapi_tenancy.Utils.Sanitize.{
  core_sanitize_identifier, underscore, mask, collapse, lead, or_tenant, is_alpha,
}
use fastapi_tenancy.Utils.DbCompat.{prefix_of, make_table_prefix}

replace-append :
    (a b : ℕ) (s t : Text)
    → all is_alnum s ≡ true
    → is_alnum a ≡ false
    → replace a b (s ++ t) ≡ s ++ replace a b t
unfolding replace
replace-append a b [] t h n = refl
replace-append a b (c ∷ s) t h n = ground (arith, replace-append a b s t)

mask-append : (s t : Text) → all is_alnum s ≡ true → mask (s ++ t) ≡ s ++ mask t
unfolding mask is_word
mask-append [] t h = refl
mask-append (c ∷ s) t h = ground (arith, mask-append s t)

alnum-underscore : (c : ℕ) → is_alnum c ≡ true → underscore c ≡ false
unfolding is_alnum is_lower is_digit
alnum-underscore c h = ground arith

collapse-append : (s t : Text) → all is_alnum s ≡ true → collapse (s ++ t) ≡ s ++ collapse t
unfolding collapse
collapse-append [] t h = refl
collapse-append (c ∷ s) t h = ground (arith, collapse-append s t, alnum-underscore c)

lstrip-append : (c : ℕ) (s : Text) → is_alnum c ≡ true → lstrip underscore (c ∷ s) ≡ c ∷ s
unfolding lstrip
lstrip-append c s h = ground (arith, alnum-underscore c)

rstrip-append :
    (s t : Text) → all is_alnum s ≡ true → rstrip underscore (s ++ t) ≡ s ++ rstrip underscore t
unfolding rstrip
rstrip-append [] t h = refl
rstrip-append (c ∷ s) t h = ground (arith, rstrip-append s t, alnum-underscore c)

rstrip-alnum : (s : Text) → all is_alnum s ≡ true → rstrip underscore s ≡ s
unfolding rstrip
rstrip-alnum [] h = refl
rstrip-alnum (c ∷ s) h = ground (arith, rstrip-alnum s, alnum-underscore c)

take-take-append : (m n : ℕ) (s t : Text) → length s ≡ m → m ≤ n → take m (take n (s ++ t)) ≡ s
take-take-append zero n [] t e h = refl
take-take-append zero n (c ∷ s) t e h = absurd (omega arith)
take-take-append (suc m) n [] t e h = absurd (omega arith)
take-take-append (suc m) zero (c ∷ s) t e h = absurd (omega arith)
take-take-append (suc m) (suc n) (c ∷ s) t e h =
    ap (◌∷◌ c) (take-take-append m n s t (omega arith) (omega arith))

alnum-lower : (c : ℕ) → is_lower c ≡ true → is_alnum c ≡ true
unfolding is_alnum
alnum-lower c h = ground arith

-- What the sanitiser makes of an identifier that begins with letters and digits.
sanitize-append :
    (lower : Text → Text) (c : ℕ) (s t : Text)
    → is_lower c ≡ true
    → all is_alnum s ≡ true
    → lower (c ∷ s ++ t) ≡ c ∷ s ++ t
    → core_sanitize_identifier lower (c ∷ s ++ t)
      ≡ take 63
          (c ∷ s ++ rstrip underscore (collapse (mask (replace b'.' b'_' (replace b'-' b'_' t)))))
unfolding core_sanitize_identifier strip lead is_alpha or_tenant
sanitize-append lower c s t l a e =
    let whole : all is_alnum (c ∷ s) ≡ true = ground (arith, alnum-lower c l) in
    let dashes = replace b'-' b'_' t in
    rw
      (
        e,
        replace-append b'-' b'_' (c ∷ s) t whole (unfold is_alnum is_lower is_digit in refl),
        replace-append b'.' b'_' (c ∷ s) dashes whole (unfold is_alnum is_lower is_digit in refl),
        mask-append (c ∷ s) (replace b'.' b'_' dashes) whole,
        collapse-append (c ∷ s) (mask (replace b'.' b'_' dashes)) whole,
        lstrip-append c (s ++ collapse (mask (replace b'.' b'_' dashes))) (alnum-lower c l),
        rstrip-append (c ∷ s) (collapse (mask (replace b'.' b'_' dashes))) whole,
        l,
      )
      refl

-- Of a safe name that begins with twenty letters and digits the prefix has just these.
prefix_of-take :
    (c d : ℕ) (s r : Text)
    → is_alnum c ≡ true
    → is_alnum d ≡ true
    → all is_alnum s ≡ true
    → length s ≡ 18
    → prefix_of (take 63 (c ∷ d ∷ s ++ r)) ≡ codes "t_" ++ (c ∷ d ∷ s ++ codes "_")
unfolding prefix_of starts_with
prefix_of-take c d s r x y a n =
    let no_mark : (b't' == c && (b'_' == d && true)) ≡ false =
      ground (arith, alnum-underscore d y) in
    let taken = take-take-append 18 61 s r n (omega arith) in
    let whole : all is_alnum (c ∷ d ∷ s) ≡ true = ground arith in
    rw (no_mark, taken, rstrip-alnum (c ∷ d ∷ s) whole) refl

-- Two identifiers that share their first twenty characters, a letter and 19 letters or digits, get
-- the same table prefix, provided that lower() leaves both alone.
pub make_table_prefix_collision :
    (lower : Text → Text) (c d : ℕ) (s t u : Text)
    → is_lower c ≡ true
    → all is_alnum (d ∷ s) ≡ true
    → length s ≡ 18
    → lower (c ∷ d ∷ s ++ t) ≡ c ∷ d ∷ s ++ t
    → lower (c ∷ d ∷ s ++ u) ≡ c ∷ d ∷ s ++ u
    → make_table_prefix lower (c ∷ d ∷ s ++ t) ≡ make_table_prefix lower (c ∷ d ∷ s ++ u)
unfolding make_table_prefix
make_table_prefix_collision lower c d s t u l a n p q =
    let x = alnum-lower c l in
    let y : is_alnum d ≡ true = ground arith in
    let z : all is_alnum s ≡ true = ground arith in
    rw (sanitize-append lower c (d ∷ s) t l a p, sanitize-append lower c (d ∷ s) u l a q)
      (prefix_of-take c d s _ x y z n ∙ sym (prefix_of-take c d s _ x y z n))
