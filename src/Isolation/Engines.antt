-- ===== src/Isolation/Engines.antt =====
-- isolation/database.py: _LRUEngineCache and the run of _get_engine by one coroutine, which holds the
-- tenant's lock. An engine is a number; `engine` is what create_async_engine would return.
pub mod Leaks
use fastapi_tenancy.Prelude.{
  ℕ, Text, Option, none, some, List, [], ◌∷◌, Bool, true, false, length, leb, if◌then◌else◌,
}
use fastapi_tenancy.Prelude.Dict as Dict
use fastapi_tenancy.Core.Exceptions.{Result, ok, raise, key_error}

pub record LruEngineCache : Type 0 where
  pub cache : Dict.Dict ℕ
  pub max_size : ℕ

unfoldable pub get : Text → LruEngineCache → Option ℕ × LruEngineCache
get key c = elim (Dict.get key c.cache) [
  | none ↦ (none, c)
  | some engine ↦ (some engine, record c { cache = Dict.move_to_end key c.cache })
]

-- A new key: popitem(last=False) first, when the cache is full.
unfoldable pub insert_new : Text → ℕ → LruEngineCache → Result (Option ℕ) × LruEngineCache
insert_new key engine c =
    if leb c.max_size (length c.cache)
    then elim c.cache [
      | [] ↦ (raise key_error, c)
      | (k, evicted) ∷ rest ↦ (ok (some evicted), record c { cache = Dict.put key engine rest })
    ]
    else (ok none, record c { cache = Dict.put key engine c.cache })

unfoldable pub put : Text → ℕ → LruEngineCache → Result (Option ℕ) × LruEngineCache
unfolding insert_new
put key engine c = elim (Dict.get key c.cache) [
  | some _ ↦ (ok none, record c { cache = Dict.move_to_end key c.cache })
  | none ↦ insert_new key engine c
]

unfoldable pub remove : Text → LruEngineCache → Option ℕ × LruEngineCache
remove key c = (Dict.get key c.cache, record c { cache = Dict.del key c.cache })

-- The engines to dispose of, and the emptied cache.
unfoldable pub dispose_all : LruEngineCache → List ℕ × LruEngineCache
dispose_all c = (Dict.values c.cache, record c { cache = [] })

-- The engine that the tenant uses, the engines that were created and disposed of, and the cache.
pub record Acquired : Type 0 where
  pub used : ℕ
  pub created : List ℕ
  pub disposed : List ℕ
  pub engines : LruEngineCache

abbrev pub listed : Option ℕ → List ℕ
listed none = []
listed (some e) = e ∷ []

unfoldable pub get_engine : Text → ℕ → LruEngineCache → Result Acquired
unfolding get put
get_engine tenant_id engine c =
    let (cached, c1) = get tenant_id c in
    elim cached [
      | some e ↦ ok (record { used = e; created = []; disposed = []; engines = c1 })
      | none ↦
          let (evicted, c2) = put tenant_id engine c1 in
          elim evicted [
            | raise e ↦ raise e
            | ok o ↦
                ok (record {
                  used = engine;
                  created = engine ∷ [];
                  disposed = listed o;
                  engines = c2;
                })
          ]
    ]
