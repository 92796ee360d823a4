-- ===== src/Core/Config/Printing.antt =====
-- core/config.py: TenancyConfig.__str__, which hides secrets in Pydantic's representation of the
-- configuration. `fold` is how re.IGNORECASE compares characters, and `is_space` is \s.
pub mod Credentials
use fastapi_tenancy.Prelude.{
  ℕ, zero, suc, ◌+◌, ◌-◌, Text, codes, List, [], ◌∷◌, ◌++◌, Option, none, some, Bool, true, false,
  ◌||◌, ◌==◌, starts_with, drop, take, map, length, if◌then◌else◌,
}

-- [^stop]+ and then the character: what precedes it, and what follows.
unfoldable pub up_to : ℕ → Text → Option (Text × Text)
up_to stop [] = none
up_to stop (c ∷ s) =
    let rest = up_to stop s in
    if c == stop
    then some ([], s)
    else elim rest [ none ↦ none | some (before, after) ↦ some (c ∷ before, after) ]

unfoldable pub nonempty_up_to : ℕ → Text → Option (Text × Text)
unfolding up_to
nonempty_up_to stop s = elim (up_to stop s) [
  | none ↦ none
  | some (before, after) ↦ elim before [ [] ↦ none | c ∷ t ↦ some (c ∷ t, after) ]
]

-- ://([^:]+):([^@]+)@ from here on: the user, and how long the match is.
unfoldable pub credentials : Text → Option (Text × ℕ)
unfolding starts_with
credentials s =
    if starts_with (codes "://") s
    then elim (nonempty_up_to b':' (drop 3 s)) [
      | none ↦ none
      | some (user, after) ↦ elim (nonempty_up_to b'@' after) [
        | none ↦ none
        | some (password, _) ↦ some (user, 5 + length user + length password)
      ]
    ]
    else none

-- re.sub, after characters that a match has taken.
unfoldable pub mask_from : ℕ → Text → Text
mask_from skip [] = []
mask_from (suc skip) (c ∷ s) = mask_from skip s
mask_from zero (c ∷ s) = elim (credentials (c ∷ s)) [
  | none ↦ c ∷ mask_from 0 s
  | some (user, n) ↦ codes "://" ++ (user ++ (codes ":***@" ++ mask_from (n - 1) s))
]

unfoldable pub mask_passwords : Text → Text
unfolding mask_from
mask_passwords s = mask_from 0 s

abbrev pub secret_names : List Text
secret_names =
    codes "jwt_secret"
    ∷ codes "encryption_key"
    ∷ codes "secret"
    ∷ codes "password"
    ∷ codes "key"
    ∷ []

module _ (fold : ℕ → ℕ) (is_space : ℕ → Bool) where
  -- [^\s,)]+
  unfoldable pub bare_length : Text → ℕ
  bare_length [] = 0
  bare_length (c ∷ s) =
      let rest = bare_length s in if is_space c || (c == b',' || c == b')') then 0 else suc rest

  -- '[^']*', or else a bare value: its length, 0 where there is none.
  unfoldable pub value_length : Text → ℕ
  unfolding bare_length up_to
  value_length [] = 0
  value_length (c ∷ s) =
      if c == 39
      then elim (up_to 39 s) [ none ↦ bare_length (c ∷ s) | some (value, _) ↦ 2 + length value ]
      else bare_length (c ∷ s)

  -- The first of the names that stands here, before an equals sign and a value: the lengths of the
  -- name and of the match.
  unfoldable pub named_secret : List Text → Text → Option (ℕ × ℕ)
  unfolding value_length starts_with
  named_secret [] s = none
  named_secret (name ∷ names) s =
      let later = named_secret names s in
      let n = value_length (drop (length name + 1) s) in
      if starts_with (map fold name ++ b'=' ∷ []) (map fold s)
      then (if n == 0 then later else some (length name, length name + 1 + n))
      else later

  unfoldable pub mask_secrets_from : ℕ → Text → Text
  unfolding named_secret
  mask_secrets_from skip [] = []
  mask_secrets_from (suc skip) (c ∷ s) = mask_secrets_from skip s
  mask_secrets_from zero (c ∷ s) = elim (named_secret secret_names (c ∷ s)) [
    | none ↦ c ∷ mask_secrets_from 0 s
    | some (n, m) ↦ take n (c ∷ s) ++ (codes "='***'" ++ mask_secrets_from (m - 1) s)
  ]

  -- `representation` is BaseSettings.__repr__.
  unfoldable pub to_str : Text → Text
  unfolding mask_secrets_from mask_passwords
  to_str representation = mask_secrets_from 0 (mask_passwords representation)
