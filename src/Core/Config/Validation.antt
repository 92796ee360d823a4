-- ===== src/Core/Config/Validation.antt =====
-- core/config.py: the bounds and the validators of TenancyConfig, which Pydantic runs on every
-- field, defaults included. A ValidationError is a ValueError.
use fastapi_tenancy.Prelude.{
  ℕ, Text, codes, [], ◌∷◌, Option, none, some, Bool, true, false, not, ◌&&◌, ◌||◌, leb, ltb, ◌==◌,
  length, is_infix, if◌then◌else◌,
}
use fastapi_tenancy.Core.Types.{TenantStatus, ResolutionStrategy, jwt, subdomain, database, hybrid}
use fastapi_tenancy.Core.Exceptions.{Result, ok, raise, value_error}
use fastapi_tenancy.Core.Config.{TenancyConfig, strategy_eq, or_blank}
use fastapi_tenancy.Utils.Chars.{is_empty, is_lower, is_word, rstrip}
use fastapi_tenancy.Utils.Validation.{at_end}

-- not v
abbrev pub unset : Option Text → Bool
unset v = is_empty (or_blank v)

-- v is not None and len(v) < 32
abbrev pub too_short : Option Text → Bool
too_short none = false
too_short (some v) = ltb (length v) 32

unfoldable pub validate_database_url : Text → Text
validate_database_url v = rstrip (λ c. c == b'/') v

abbrev pub is_jwt : ResolutionStrategy → Bool
is_jwt jwt = true
is_jwt _ = false

abbrev pub is_subdomain : ResolutionStrategy → Bool
is_subdomain subdomain = true
is_subdomain _ = false

unfoldable pub validate_jwt_secret : ResolutionStrategy → Option Text → Bool
validate_jwt_secret strategy v = not (is_jwt strategy && unset v) && not (too_short v)

unfoldable pub validate_domain_suffix : ResolutionStrategy → Option Text → Bool
validate_domain_suffix strategy v = not (is_subdomain strategy && unset v)

unfoldable pub validate_encryption_key : Bool → Option Text → Bool
validate_encryption_key enable_encryption v =
    not (enable_encryption && unset v) && not (too_short v)

-- [a-z0-9_]*$
unfoldable pub words_to_end : Text → Bool
words_to_end [] = true
words_to_end (c ∷ s) = let rest = words_to_end s in at_end (c ∷ s) || is_word c && rest

-- ^[a-z][a-z0-9_]*$
unfoldable pub validate_schema_prefix : Text → Bool
unfolding words_to_end
validate_schema_prefix [] = false
validate_schema_prefix (c ∷ s) = is_lower c && words_to_end s

abbrev pub between : ℕ → ℕ → ℕ → Bool
between lo hi n = leb lo n && leb n hi

-- max_tenants is None or at least 1.
abbrev pub positive : Option ℕ → Bool
positive none = true
positive (some n) = leb 1 n

-- ge and le; a lower bound of 0 holds of every natural number.
unfoldable pub validate_bounds : TenancyConfig → Bool
validate_bounds c =
    between 1 100 c.database_pool_size
    && (leb c.database_max_overflow 200
        && (leb 1 c.database_pool_timeout
            && (leb 60 c.database_pool_recycle
                && (between 10 10000 c.max_cached_engines
                    && (between 10 100000 c.l1_cache_max_size
                        && (leb 1 c.l1_cache_ttl_seconds
                            && (between 1 10000 c.rate_limit_per_minute
                                && (leb 1 c.rate_limit_window_seconds
                                    && positive c.max_tenants))))))))

-- default_tenant_status is one of three.
abbrev pub is_starting : TenantStatus → Bool
is_starting TenantStatus.deleted = false
is_starting _ = true

unfoldable pub validate_template : Option Text → Bool
validate_template v =
    not (unset v)
    && (is_infix (codes "{tenant_id}") (or_blank v)
        || is_infix (codes "{database_name}") (or_blank v))

unfoldable pub validate_cross_field_consistency : TenancyConfig → Bool
unfolding validate_template
validate_cross_field_consistency c =
    not (c.cache_enabled && unset c.redis_url)
    && (not (c.enable_rate_limiting && unset c.redis_url)
        && (not (
              strategy_eq c.isolation_strategy hybrid
              && strategy_eq c.premium_isolation_strategy c.standard_isolation_strategy)
            && (not (strategy_eq c.isolation_strategy database)
                || validate_template c.database_url_template)))

unfoldable pub is_valid : TenancyConfig → Bool
is_valid c =
    (validate_bounds c && is_starting c.default_tenant_status)
    && (validate_domain_suffix c.resolution_strategy c.domain_suffix
        && (validate_jwt_secret c.resolution_strategy c.jwt_secret
            && (validate_encryption_key c.enable_encryption c.encryption_key
                && (validate_schema_prefix c.schema_prefix && validate_cross_field_consistency c))))

unfoldable pub validate : TenancyConfig → Result TenancyConfig
unfolding is_valid
validate c =
    if is_valid c
    then ok (record c { database_url = validate_database_url c.database_url })
    else raise value_error
