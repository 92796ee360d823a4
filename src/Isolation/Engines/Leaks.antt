-- ===== src/Isolation/Engines/Leaks.antt =====
-- isolation/database.py: what becomes of the engines.
use fastapi_tenancy.Prelude.{
  ℕ, ◌+◌, ◌≤◌, ◌≡◌, refl, ap, ◌∙◌, Text, Option, none, some, List, [], ◌∷◌, ◌++◌, true, false, ◌==◌,
  length, leb, if◌then◌else◌, arith, Option-cases, Bool-cases, inl, inr, ◌⊎◌, suc,
}
use fastapi_tenancy.Prelude.Dict as Dict
use fastapi_tenancy.Prelude.Dict.{
  Dict, IsDict, values, move_to_end, del-absent, length-move_to_end, length-put, get-move_to_end,
  move_to_end-IsDict, put-IsDict, get-put, get-del,
}
use fastapi_tenancy.Core.Exceptions.{ok}
use fastapi_tenancy.Isolation.Engines.{
  LruEngineCache, get, put, insert_new, Acquired, listed, get_engine,
}

-- How often an engine stands in a list.
unfoldable pub count : ℕ → List ℕ → ℕ
count x [] = 0
count x (y ∷ ys) = let rest = count x ys in if x == y then rest + 1 else rest

count-append : (x : ℕ) (xs ys : List ℕ) → count x (xs ++ ys) ≡ count x xs + count x ys
unfolding count
count-append x [] ys = omega arith
count-append x (y ∷ xs) ys = ground (arith, count-append x xs ys)

count-put :
    (x : ℕ) (k : Text) (v : ℕ) (d : Dict ℕ)
    → Dict.get k d ≡ none
    → count x (values (Dict.put k v d)) ≡ count x (values d) + count x (v ∷ [])
unfolding count Dict.get Dict.put
count-put x k v [] h = omega arith
count-put x k v ((j, w) ∷ d) h = ground (arith, count-put x k v d)

count-del :
    (x : ℕ) (k : Text) (v : ℕ) (d : Dict ℕ)
    → IsDict d
    → Dict.get k d ≡ some v
    → count x (values (Dict.del k d)) + count x (v ∷ []) ≡ count x (values d)
unfolding count Dict.get Dict.del
count-del x k v [] u h = cc
count-del x k v ((j, w) ∷ d) u h = ground (arith, count-del x k v d u.1, del-absent k d)

values-append : (d : Dict ℕ) (k : Text) (v : ℕ) → values (d ++ (k, v) ∷ []) ≡ values d ++ v ∷ []
values-append [] k v = refl
values-append ((j, w) ∷ d) k v = ap (◌∷◌ w) (values-append d k v)

count-move_to_end :
    (x : ℕ) (k : Text) (d : Dict ℕ)
    → IsDict d
    → count x (values (move_to_end k d)) ≡ count x (values d)
unfolding move_to_end
count-move_to_end x k d u = elim (Option-cases (Dict.get k d)) [
  | inl e ↦ rw (e, move_to_end) refl
  | inr (v, e) ↦
      rw (e, move_to_end, values-append (Dict.del k d) k v)
        (omega (arith, count-append x (values (Dict.del k d)) (v ∷ []), count-del x k v d u e))
]

-- A cache that is no larger than it may be.
pub record IsBounded (c : LruEngineCache) : Type 0 where
  pub dict : IsDict c.cache
  pub positive : 1 ≤ c.max_size
  pub bounded : length c.cache ≤ c.max_size

-- The engine in use is cached under the tenant's id, the cache is bounded, and every engine that was
-- cached or created is cached or disposed of.
pub record IsKept (tenant_id : Text) (c : LruEngineCache) (r : Acquired) : Type 0 where
  pub cached : Dict.get tenant_id r.engines.cache ≡ some r.used
  pub still : IsBounded r.engines
  pub balanced :
      (x : ℕ)
      → count x (values r.engines.cache) + count x r.disposed
        ≡ count x (values c.cache) + count x r.created

module _ (t : Text) (e : ℕ) (c : LruEngineCache) where
  hit-IsKept :
      (f : ℕ)
      → IsBounded c
      → Dict.get t c.cache ≡ some f
      → IsKept t c (record {
        used = f;
        created = [];
        disposed = [];
        engines = record c { cache = move_to_end t c.cache };
      })
  unfolding count
  hit-IsKept f b h = record {
    cached = get-move_to_end t t c.cache ∙ h;
    still = record {
      dict = move_to_end-IsDict t c.cache b.dict;
      positive = b.positive;
      bounded = omega (arith, b.bounded, length-move_to_end t c.cache b.dict);
    };
    balanced = λ x. omega (arith, count-move_to_end x t c.cache b.dict);
  }

  new-IsKept :
      (d : Dict ℕ) (o : Option ℕ)
      → IsDict d
      → 1 ≤ c.max_size
      → length d + 1 ≤ c.max_size
      → Dict.get t d ≡ none
      → ((x : ℕ) → count x (values c.cache) ≡ count x (values d) + count x (listed o))
      → IsKept t c (record {
        used = e;
        created = e ∷ [];
        disposed = listed o;
        engines = record c { cache = Dict.put t e d };
      })
  new-IsKept d o u pos room absent split = record {
    cached = ground (arith, get-put t t e d);
    still = record {
      dict = put-IsDict t e d u;
      positive = pos;
      bounded = ground (arith, length-put t e d);
    };
    balanced = λ x. omega (arith, split x, count-put x t e d absent);
  }

List-cases : (d : Dict ℕ) → (d ≡ []) ⊎ ((k : Text) × (v : ℕ) × (r : Dict ℕ) × (d ≡ (k, v) ∷ r))
List-cases [] = inl refl
List-cases ((k, v) ∷ r) = inr (k, v, r, refl)

pop-count :
    (x : ℕ) (k : Text) (v : ℕ) (r d : Dict ℕ)
    → d ≡ (k, v) ∷ r
    → count x (values d) ≡ count x (values r) + count x (listed (some v))
unfolding count
pop-count x k v r d h = rw h (ground arith)

module _ (t : Text) (e : ℕ) (c : LruEngineCache) where
  put-room :
      Dict.get t c.cache ≡ none
      → leb c.max_size (length c.cache) ≡ false
      → put t e c ≡ (ok none, record c { cache = Dict.put t e c.cache })
  unfolding put insert_new
  put-room h f = ground (arith, h, f)

  put-full :
      (k : Text) (v : ℕ) (d : Dict ℕ)
      → Dict.get t c.cache ≡ none
      → leb c.max_size (length c.cache) ≡ true
      → c.cache ≡ (k, v) ∷ d
      → put t e c ≡ (ok (some v), record c { cache = Dict.put t e d })
  unfolding put insert_new
  put-full k v d h f g = rw (h, put) (rw (f, g, insert_new) refl)

  get_engine-hit :
      (f : ℕ)
      → Dict.get t c.cache ≡ some f
      → get_engine t e c
        ≡ ok (record {
          used = f;
          created = [];
          disposed = [];
          engines = record c { cache = move_to_end t c.cache };
        })
  unfolding get_engine get
  get_engine-hit f h = ground (arith, h)

  get_engine-miss :
      (o : Option ℕ) (c' : LruEngineCache)
      → Dict.get t c.cache ≡ none
      → put t e c ≡ (ok o, c')
      → get_engine t e c
        ≡ ok (record { used = e; created = e ∷ []; disposed = listed o; engines = c' })
  unfolding get_engine get
  get_engine-miss o c' h p = ground (arith, h, p)

module _ (t : Text) (e : ℕ) (c : LruEngineCache) (b : IsBounded c) where
  miss-IsKept :
      Dict.get t c.cache ≡ none → (r : Acquired) × (get_engine t e c ≡ ok r) × IsKept t c r
  unfolding count
  miss-IsKept h = elim (Bool-cases (leb c.max_size (length c.cache))) [
    | inr f ↦ (
      _,
      get_engine-miss t e c none _ h (put-room t e c h f),
      new-IsKept t e c c.cache none b.dict b.positive (ground arith) h (λ x. omega arith),
    )
    | inl f ↦ elim (List-cases c.cache) [
      | inl g ↦ absurd (ground (arith, g, b.positive))
      | inr (k, v, d, g) ↦
          let tail : IsDict d = (rw g at b.dict).1 in
          let room : suc (length d) ≤ c.max_size = rw g at b.bounded in
          let absent : Dict.get t d ≡ none = unfold Dict.get in ground (arith, rw g at h) in
          (
            _,
            get_engine-miss t e c (some v) _ h (put-full t e c k v d h f g),
            new-IsKept t e c d (some v) tail b.positive (omega (arith, room)) absent
                (λ x. pop-count x k v d c.cache g),
          )
    ]
  ]

-- While a coroutine acquires an engine from a cache within its bound, of at least one, the run
-- succeeds, the engine in use is then cached under the tenant's id, the cache is within its bound,
-- and no engine is lost: each that was cached or created is cached or disposed of.
pub get_engine-IsKept :
    (tenant_id : Text) (engine : ℕ) (c : LruEngineCache)
    → IsBounded c
    → (r : Acquired) × (get_engine tenant_id engine c ≡ ok r) × IsKept tenant_id c r
get_engine-IsKept t e c b = elim (Option-cases (Dict.get t c.cache)) [
  | inl h ↦ miss-IsKept t e c b h
  | inr (f, h) ↦ (_, get_engine-hit t e c f h, hit-IsKept t e c f b h)
]
