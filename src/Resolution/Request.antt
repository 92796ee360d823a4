-- ===== src/Resolution/Request.antt =====
-- What the resolvers read of a request, and Python's text methods that they use. The headers are
-- what request.headers.get returns for a name.
use fastapi_tenancy.Prelude.{
  ℕ, ◌-◌, Text, text_eq, Option, none, some, [], ◌∷◌, Bool, ◌||◌, ◌&&◌, leb, ◌==◌, length, drop,
  if◌then◌else◌,
}
use fastapi_tenancy.Core.Types.{Tenant}
use fastapi_tenancy.Core.Exceptions.{Result}

-- tenant_path_remainder is the attribute of request.state.
pub record Request : Type 0 where
  pub headers : Text → Option Text
  pub path : Text
  pub tenant_path_remainder : Option Text

-- self.store.get_by_identifier
abbrev pub Lookup : Type 0
Lookup = Text → Result Tenant

abbrev pub or_blank : Option Text → Text
or_blank none = []
or_blank (some s) = s

-- The characters that str.strip() removes.
unfoldable pub is_space : ℕ → Bool
is_space c =
    leb 9 c && leb c 13
    || (leb 28 c && leb c 32
        || (c == 133
            || (c == 160
                || (c == 5760
                    || (leb 8192 c && leb c 8202
                        || (c == 8232
                            || (c == 8233 || (c == 8239 || (c == 8287 || c == 12288)))))))))

-- s.split(c)[0]
unfoldable pub before : ℕ → Text → Text
before c [] = []
before c (d ∷ s) = let rest = before c s in if d == c then [] else d ∷ rest

-- s.endswith(t)
unfoldable pub ends_with : Text → Text → Bool
ends_with t s = leb (length t) (length s) && text_eq (drop (length s - length t) s) t
