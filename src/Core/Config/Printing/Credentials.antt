-- ===== src/Core/Config/Printing/Credentials.antt =====
-- core/config.py: which passwords of URLs __str__ hides.
use mathlib.Core.List.{append_assoc}
use fastapi_tenancy.Prelude.{
  ℕ, ◌+◌, ◌-◌, ◌≡◌, refl, ap, ◌∙◌, Text, codes, [], ◌∷◌, ◌++◌, none, some, false, ◌==◌, length,
  length-append, arith, starts_with, is_infix,
}
use fastapi_tenancy.Core.Config.Printing.{
  up_to, nonempty_up_to, credentials, mask_from, mask_passwords,
}

-- A text without a character.
abbrev pub Avoids : ℕ → Text → Type 0
Avoids stop [] = Unit
Avoids stop (c ∷ s) = ((c == stop) ≡ false) × Avoids stop s

up_to-append : (stop : ℕ) (u y : Text) → Avoids stop u → up_to stop (u ++ stop ∷ y) ≡ some (u, y)
unfolding up_to
up_to-append stop [] y h = ground arith
up_to-append stop (c ∷ u) y h = ground (arith, h.0, up_to-append stop u y h.1)

nonempty-append :
    (stop c : ℕ) (u y : Text)
    → Avoids stop (c ∷ u)
    → nonempty_up_to stop (c ∷ (u ++ stop ∷ y)) ≡ some (c ∷ u, y)
unfolding nonempty_up_to
nonempty-append stop c u y h = rw (up_to-append stop (c ∷ u) y h, nonempty_up_to) refl

skipped : (u y : Text) → mask_from (length u) (u ++ y) ≡ mask_from 0 y
unfolding mask_from
skipped [] y = refl
skipped (c ∷ u) y = skipped u y

no_credentials : (c : ℕ) (s : Text) → (c == b':') ≡ false → credentials (c ∷ s) ≡ none
unfolding credentials
no_credentials c s h = ground (arith, h)

-- Text without a colon stays.
kept : (a y : Text) → Avoids b':' a → mask_from 0 (a ++ y) ≡ a ++ mask_from 0 y
unfolding mask_from
kept [] y h = refl
kept (c ∷ a) y h = rw (no_credentials c (a ++ y) h.0, mask_from) (ap (◌∷◌ c) (kept a y h.1))

-- What follows the colon of the scheme: the user, the password and the end of both.
abbrev pub authority : Text → Text → Text
authority user password = b'/' ∷ b'/' ∷ (user ++ b':' ∷ (password ++ b'@' ∷ []))

spread : (u p rest : Text) → (u ++ b':' ∷ (p ++ b'@' ∷ [])) ++ rest ≡ u ++ b':' ∷ (p ++ b'@' ∷ rest)
spread u p rest = rw (append_assoc, append_assoc) refl

credentials-authority :
    (c d : ℕ) (u p rest : Text)
    → Avoids b':' (c ∷ u)
    → Avoids b'@' (d ∷ p)
    → credentials (b':' ∷ (authority (c ∷ u) (d ∷ p) ++ rest))
      ≡ some (c ∷ u, 5 + length (c ∷ u) + length (d ∷ p))
unfolding credentials
credentials-authority c d u p rest h k =
    rw
      (
        spread u (d ∷ p) rest,
        nonempty-append b':' c u (d ∷ (p ++ b'@' ∷ rest)) h,
        nonempty-append b'@' d p rest k,
      )
      refl

masked-user :
    (c d : ℕ) (u p rest : Text)
    → Avoids b':' (c ∷ u)
    → Avoids b'@' (d ∷ p)
    → mask_from 0 (b':' ∷ (authority (c ∷ u) (d ∷ p) ++ rest))
      ≡ codes "://" ++ ((c ∷ u) ++ (codes ":***@" ++ mask_from 0 rest))
unfolding mask_from
masked-user c d u p rest h k =
    let W = authority (c ∷ u) (d ∷ p) in
    let n : 5 + length (c ∷ u) + length (d ∷ p) - 1 ≡ length W =
      omega (arith, length-append u (b':' ∷ d ∷ (p ++ b'@' ∷ [])), length-append p (b'@' ∷ [])) in
    rw (credentials-authority c d u p rest h k, mask_from)
      (ap (λ x. codes "://" ++ ((c ∷ u) ++ (codes ":***@" ++ x)))
        (ap (λ m. mask_from m (W ++ rest)) n ∙ skipped W rest))

-- The text that __str__ masks has colons before its first URL; none of them begins "://".
no_slashes : (a y : Text) → starts_with (codes "//") (a ++ b':' ∷ y) ≡ starts_with (codes "//") a
unfolding starts_with
no_slashes [] y = refl
no_slashes (c ∷ []) y = ground arith
no_slashes (c ∷ d ∷ a) y = refl

no_scheme :
    (c : ℕ) (a y : Text)
    → starts_with (codes "://") (c ∷ a) ≡ false
    → credentials (c ∷ (a ++ b':' ∷ y)) ≡ none
unfolding credentials starts_with
no_scheme c a y h = ground (arith, h, no_slashes a y)

unmatched :
    (c : ℕ) (s : Text) → credentials (c ∷ s) ≡ none → mask_from 0 (c ∷ s) ≡ c ∷ mask_from 0 s
unfolding mask_from
unmatched c s h = rw (h, mask_from) refl

-- Text without "://", before a colon, stays.
kept_before :
    (a y : Text)
    → is_infix (codes "://") a ≡ false
    → mask_from 0 (a ++ b':' ∷ y) ≡ a ++ mask_from 0 (b':' ∷ y)
unfolding is_infix
kept_before [] y h = refl
kept_before (c ∷ a) y h =
    let here : starts_with (codes "://") (c ∷ a) ≡ false = ground (arith, h) in
    let later : is_infix (codes "://") a ≡ false = ground (arith, h) in
    unmatched c (a ++ b':' ∷ y) (no_scheme c a y here) ∙ ap (◌∷◌ c) (kept_before a y later)

-- In a representation, the first URL has a user and a password: the text before its "://" has no
-- other one, the user has no colon and the password no at sign, and neither is empty. Stars stand for
-- this password, and what follows its at sign is masked on its own.
pub mask_passwords-authority :
    (c d : ℕ) (a u p rest : Text)
    → is_infix (codes "://") a ≡ false
    → Avoids b':' (c ∷ u)
    → Avoids b'@' (d ∷ p)
    → mask_passwords (a ++ b':' ∷ (authority (c ∷ u) (d ∷ p) ++ rest))
      ≡ a ++ (codes "://" ++ ((c ∷ u) ++ (codes ":***@" ++ mask_passwords rest)))
unfolding mask_passwords
mask_passwords-authority c d a u p rest g h k =
    kept_before a (authority (c ∷ u) (d ∷ p) ++ rest) g
    ∙ ap (λ x. a ++ x) (masked-user c d u p rest h k)

no_user : (d : ℕ) (s : Text) → (d == b'/') ≡ false → credentials (b':' ∷ d ∷ s) ≡ none
unfolding credentials
no_user d s h = ground (arith, h)

empty_user : (s : Text) → credentials (codes "://" ++ b':' ∷ s) ≡ none
unfolding credentials nonempty_up_to up_to
empty_user s = refl

-- A URL without a user: its password stays.
shown :
    (d : ℕ) (a p rest : Text)
    → is_infix (codes "://") a ≡ false
    → (d == b'/') ≡ false
    → Avoids b':' (d ∷ p)
    → mask_from 0 (a ++ (codes "://:" ++ ((d ∷ p) ++ rest)))
      ≡ a ++ (codes "://:" ++ ((d ∷ p) ++ mask_from 0 rest))
shown d a p rest g h k =
    kept_before a (codes "//:" ++ ((d ∷ p) ++ rest)) g
    ∙ ap (λ x. a ++ x)
        (unmatched b':' (codes "//:" ++ ((d ∷ p) ++ rest)) (empty_user ((d ∷ p) ++ rest))
          ∙ ap (◌∷◌ b':') (
              kept (codes "//") (b':' ∷ ((d ∷ p) ++ rest)) (refl, (refl, tt))
              ∙ ap (λ x. codes "//" ++ x)
                  (unmatched b':' ((d ∷ p) ++ rest) (no_user d (p ++ rest) h)
                    ∙ ap (◌∷◌ b':') (kept (d ∷ p) rest k))))

-- In a representation, the first URL (that of the database) has a user and a password as above, and
-- the next one (redis://:password@host) has no user: between its scheme and the URL before it there
-- is no "://", and its password has no colon and begins with another character than a slash. The
-- first password gives way to stars; the second stays in the text, whatever follows it, an at sign
-- included.
pub mask_passwords-shown :
    (c d e : ℕ) (a u p b q rest : Text)
    → is_infix (codes "://") a ≡ false
    → Avoids b':' (c ∷ u)
    → Avoids b'@' (d ∷ p)
    → is_infix (codes "://") b ≡ false
    → (e == b'/') ≡ false
    → Avoids b':' (e ∷ q)
    → mask_passwords
        (a ++ b':' ∷ (authority (c ∷ u) (d ∷ p) ++ (b ++ (codes "://:" ++ ((e ∷ q) ++ rest)))))
      ≡ a
        ++ (codes "://"
            ++ ((c ∷ u)
                ++ (codes ":***@" ++ (b ++ (codes "://:" ++ ((e ∷ q) ++ mask_passwords rest))))))
unfolding mask_passwords
mask_passwords-shown c d e a u p b q rest g h k g' l m =
    mask_passwords-authority c d a u p (b ++ (codes "://:" ++ ((e ∷ q) ++ rest))) g h k
    ∙ ap (λ x. a ++ (codes "://" ++ ((c ∷ u) ++ (codes ":***@" ++ x)))) (shown e b q rest g' l m)
