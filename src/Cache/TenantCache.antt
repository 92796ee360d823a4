-- ===== src/Cache/TenantCache.antt =====
-- cache/tenant_cache.py: TenantCache. Time is a reading of the monotonic clock in nanoseconds, an
-- argument of the methods that read it. aset is set under a lock, which is one step here.
pub mod Valid
pub mod Reads
pub mod Purge
pub mod Run
use fastapi_tenancy.Prelude.{
  ℕ, ◌+◌, ◌*◌, ◌/◌, Text, text_dec, Option, none, some, List, [], ◌∷◌, Bool, true, false, ◌&&◌, not,
  length, ltb, leb, ite, if◌then◌else◌,
}
use fastapi_tenancy.Prelude.Dict.{Dict, get, put, del, move_to_end}
use fastapi_tenancy.Core.Types.{Tenant}
use fastapi_tenancy.Core.Exceptions.{Result, ok, raise, value_error}

pub record Entry : Type 0 where
  pub tenant : Tenant
  pub expires_at : ℕ

pub record TenantCache : Type 0 where
  pub max_size : ℕ
  pub ttl : ℕ
  pub by_id : Dict Entry
  pub id_by_ident : Dict Text
  pub hits : ℕ
  pub misses : ℕ

abbrev pub second : ℕ
second = 1000000000

unfoldable pub init : ℕ → ℕ → Result TenantCache
init max_size ttl =
    if ltb max_size 1
    then raise value_error
    else if ltb ttl 1
    then raise value_error
    else ok (record {
      max_size = max_size;
      ttl = ttl;
      by_id = [];
      id_by_ident = [];
      hits = 0;
      misses = 0;
    })

abbrev pub expired : ℕ → Entry → Bool
expired now e = ltb e.expires_at now

abbrev pub dropped : Text → Entry → TenantCache → TenantCache
dropped k e c = record c {
  by_id = del k c.by_id;
  id_by_ident = del e.tenant.identifier c.id_by_ident;
}

-- _evict
unfoldable pub evict : Text → TenantCache → Bool × TenantCache
evict k c = elim (get k c.by_id) [ none ↦ (false, c) | some e ↦ (true, dropped k e c) ]

-- _evict_lru: popitem(last=False) takes the first entry.
unfoldable pub evict_first : Dict Entry → TenantCache → TenantCache
evict_first [] c = c
evict_first ((k, e) ∷ rest) c = record c {
  by_id = rest;
  id_by_ident = del e.tenant.identifier c.id_by_ident;
}

unfoldable pub evict_lru : TenantCache → TenantCache
unfolding evict_first
evict_lru c = evict_first c.by_id c

unfoldable pub lookup : ℕ → Text → TenantCache → Option Tenant × TenantCache
lookup now k c = elim (get k c.by_id) [
  | none ↦ (none, record c { misses = c.misses + 1 })
  | some e ↦
      if expired now e
      then (none, record (evict k c).1 { misses = c.misses + 1 })
      else (some e.tenant, record c { by_id = move_to_end k c.by_id; hits = c.hits + 1 })
]

unfoldable pub get_by_identifier : ℕ → Text → TenantCache → Option Tenant × TenantCache
get_by_identifier now i c = elim (get i c.id_by_ident) [
  | none ↦ (none, c)
  | some k ↦ lookup now k c
]

-- The first step of _set_unsafe: the index after a rename.
unfoldable pub unrename : Tenant → TenantCache → Dict Text
unrename t c = elim (get t.id c.by_id) [
  | none ↦ c.id_by_ident
  | some e ↦
      ite (text_dec e.tenant.identifier t.identifier) c.id_by_ident
        (del e.tenant.identifier c.id_by_ident)
]

abbrev pub has : Text → Dict Entry → Bool
has k d = elim (get k d) [ none ↦ false | some _ ↦ true ]

-- The second step: room for a new entry.
unfoldable pub make_room : Tenant → TenantCache → TenantCache
make_room t c = if leb c.max_size (length c.by_id) && not (has t.id c.by_id) then evict_lru c else c

abbrev pub stored : ℕ → Tenant → TenantCache → TenantCache
stored now t c = record c {
  by_id =
      move_to_end t.id
        (put t.id (record { tenant = t; expires_at = now + c.ttl * second }) c.by_id);
  id_by_ident = put t.identifier t.id c.id_by_ident;
}

unfoldable pub set : ℕ → Tenant → TenantCache → TenantCache
set now t c = stored now t (make_room t (record c { id_by_ident = unrename t c }))

unfoldable pub invalidate : Text → TenantCache → Bool × TenantCache
invalidate k c = evict k c

unfoldable pub invalidate_by_identifier : Text → TenantCache → Bool × TenantCache
invalidate_by_identifier i c = elim (get i c.id_by_ident) [ none ↦ (false, c) | some k ↦ evict k c ]

unfoldable pub clear : TenantCache → ℕ × TenantCache
clear c = (length c.by_id, record c { by_id = []; id_by_ident = [] })

unfoldable pub hit_rate_pct : TenantCache → ℕ
hit_rate_pct c = if ltb 0 (c.hits + c.misses) then c.hits * 100 / (c.hits + c.misses) else 0

-- The keys of the entries that have expired.
unfoldable pub expired_keys : ℕ → Dict Entry → List Text
expired_keys now [] = []
expired_keys now ((k, e) ∷ d) =
    let rest = expired_keys now d in if expired now e then k ∷ rest else rest

unfoldable pub evict_all : List Text → TenantCache → TenantCache
evict_all [] c = c
evict_all (k ∷ ks) c = evict_all ks (evict k c).1

unfoldable pub purge_expired : ℕ → TenantCache → ℕ × TenantCache
purge_expired now c = let ks = expired_keys now c.by_id in (length ks, evict_all ks c)
