-- ===== src/Storage/Sql/Retries/Settled.antt =====
-- storage/database.py: how the retries of update_metadata end.
use native.Mathlib.Nat.{add-zero, zero-add, suc-add}
use fastapi_tenancy.Prelude.{
  ◌≢◌, ℕ, zero, suc, ◌+◌, ◌≤◌, ◌≡◌, refl, ap, Text, Option, none, some, arith, inl, inr,
  Option-cases,
}
use fastapi_tenancy.Prelude.Dict.{Dict}
use fastapi_tenancy.Core.Types.{Tenant, Json}
use fastapi_tenancy.Core.Exceptions.{Result, raise, tenancy}
use fastapi_tenancy.Storage.Sql.{Codec, TenantModel}
use fastapi_tenancy.Storage.Sql.Retries.{
  Fate, runs, conflicts, breaks, Server, Ended, conflict, Updated, transaction, pg_loop, settled,
  update_loop, update_metadata_pg, backoff,
}

-- The first of the n transactions from j on that the server does not refuse for a conflict.
unfoldable pub first_settled : (ℕ → Fate) → ℕ → ℕ → Option ℕ
first_settled fate zero j = none
first_settled fate (suc n) j =
    let later = first_settled fate n (suc j) in
    elim (fate j) [ conflicts ↦ later | runs ↦ some j | breaks ↦ some j ]

first_settled-add :
    (fate : ℕ → Fate) (m n j : ℕ)
    → first_settled fate (m + n) j
      ≡ elim (first_settled fate m j) [ none ↦ first_settled fate n (j + m) | some k ↦ some k ]
unfolding first_settled
first_settled-add fate zero n j = rw (zero-add, add-zero)
first_settled-add fate (suc m) n j =
    let same : suc j + m ≡ j + suc m = omega arith in
    rw suc-add (ground (arith, first_settled-add fate m n (suc j), ap (first_settled fate n) same))

module _ {B : Type 0} (c : Codec B) (server : Server B) (now : ℕ) (tenant_id : Text)
    (metadata : Dict Json) where
  abbrev pub tried : ℕ → Ended B
  tried = transaction c server now tenant_id metadata

  abbrev pg : ℕ → ℕ → ℕ → ℕ → Ended B × ℕ × ℕ
  pg = pg_loop c server now tenant_id metadata

  tried_again : (j : ℕ) → server.fate j ≡ conflicts → tried j ≡ conflict
  unfolding transaction
  tried_again j h = ground arith

  tried_once : (j : ℕ) → server.fate j ≢ conflicts → tried j ≢ conflict
  unfolding transaction
  tried_once j h = λ e. ground (arith, h, e)

  pg_loop_conflicts :
      (n a j p : ℕ)
      → a + n ≡ 4
      → first_settled server.fate (suc n) j ≡ none
      → ((pg (suc n) a j p).0 ≡ conflict) × ((pg (suc n) a j p).1 ≡ j + suc n)
  unfolding pg_loop first_settled
  pg_loop_conflicts zero a j p e h = ground (arith, tried_again j)
  pg_loop_conflicts (suc n) a j p e h =
      ground (arith, tried_again j, pg_loop_conflicts n (suc a) (suc j) (p + backoff a))

  pg_loop_settles :
      (n a j p k : ℕ)
      → a + n ≡ 4
      → first_settled server.fate (suc n) j ≡ some k
      → ((pg (suc n) a j p).0 ≡ tried k) × ((pg (suc n) a j p).1 ≡ suc k)
  unfolding pg_loop first_settled
  pg_loop_settles zero a j p k e h = ground (arith, tried_again j, tried_once j)
  pg_loop_settles (suc n) a j p k e h =
      ground
        (arith, tried_again j, tried_once j, pg_loop_settles n (suc a) (suc j) (p + backoff a) k)

  abbrev loop : ℕ → ℕ → ℕ → ℕ → Updated B
  loop = update_loop c server now tenant_id metadata

  abbrev rounds : ℕ → ℕ
  rounds zero = 0
  rounds (suc n) = 5 + rounds n

  first_settled-settles :
      (n j k : ℕ) → first_settled server.fate n j ≡ some k → server.fate k ≢ conflicts
  unfolding first_settled
  first_settled-settles zero j k h = cc
  first_settled-settles (suc n) j k h = λ e. ground (arith, first_settled-settles n (suc j) k, h, e)

  -- What a call shows but for the time paused.
  abbrev pub Gives : Updated B → Result Tenant → Dict (TenantModel B) → ℕ → Type 0
  Gives u result rows started = (u.result ≡ result) × (u.rows ≡ rows) × (u.started ≡ started)

  loop-once :
      (n a j p k : ℕ)
      → (pg 5 0 j p).0 ≡ tried k
      → (pg 5 0 j p).1 ≡ suc k
      → tried k ≢ conflict
      → let u = settled c server now tenant_id metadata (tried k) (suc k) 0 in
        Gives (loop (suc n) a j p) u.result u.rows (suc k)
  unfolding update_loop
  loop-once n a j p k e f h = ground (arith, e, f, h)

  loop-again :
      (n a j p : ℕ)
      → a + suc n ≡ 4
      → (pg 5 0 j p).0 ≡ conflict
      → loop (suc (suc n)) a j p ≡ loop (suc n) (suc a) (pg 5 0 j p).1 ((pg 5 0 j p).2 + backoff a)
  unfolding update_loop
  loop-again n a j p e h = ground (arith, h)

  update_loop_conflicts :
      (n a j p : ℕ)
      → a + n ≡ 4
      → first_settled server.fate (rounds (suc n)) j ≡ none
      → Gives
          (loop (suc n) a j p)
          (raise tenancy)
          (server.found (j + rounds (suc n)))
          (j + rounds (suc n))
  unfolding update_loop
  update_loop_conflicts zero a j p e h = ground (arith, pg_loop_conflicts 4 0 j p refl h)
  update_loop_conflicts (suc n) a j p e h = elim (Option-cases (first_settled server.fate 5 j)) [
    | inr (k, f) ↦ ground (arith, first_settled-add server.fate 5 (rounds (suc n)) j, f, h)
    | inl f ↦
        let (refused, begun) = pg_loop_conflicts 4 0 j p refl f in
        let p' = (pg 5 0 j p).2 + backoff a in
        let later : first_settled server.fate (rounds (suc n)) (j + 5) ≡ none =
          ground (arith, first_settled-add server.fate 5 (rounds (suc n)) j, f, h) in
        let same : j + 5 + rounds (suc n) ≡ j + rounds (suc (suc n)) = omega arith in
        rw (loop-again n a j p e refused, begun, ← same)
          (update_loop_conflicts n (suc a) (j + 5) p' (omega arith) later)
  ]

  -- The first round settles.
  settles_at_once :
      (n a j p k : ℕ)
      → first_settled server.fate 5 j ≡ some k
      → let u = settled c server now tenant_id metadata (tried k) (suc k) 0 in
        Gives (loop (suc n) a j p) u.result u.rows (suc k)
  settles_at_once n a j p k f =
      let (ended, begun) = pg_loop_settles 4 0 j p k refl f in
      loop-once n a j p k ended begun (tried_once k (first_settled-settles 5 j k f))

  update_loop_settles :
      (n a j p k : ℕ)
      → a + n ≡ 4
      → first_settled server.fate (rounds (suc n)) j ≡ some k
      → let u = settled c server now tenant_id metadata (tried k) (suc k) 0 in
        Gives (loop (suc n) a j p) u.result u.rows (suc k)
  update_loop_settles zero a j p k e h = settles_at_once zero a j p k h
  update_loop_settles (suc n) a j p k e h =
      let split = first_settled-add server.fate 5 (rounds (suc n)) j in
      elim (Option-cases (first_settled server.fate 5 j)) [
        | inr (l, f) ↦
            let same : l ≡ k = ground (arith, split, f, h) in
            settles_at_once (suc n) a j p k (rw (← same) f)
        | inl f ↦
            let (refused, begun) = pg_loop_conflicts 4 0 j p refl f in
            let p' = (pg 5 0 j p).2 + backoff a in
            let later : first_settled server.fate (rounds (suc n)) (j + 5) ≡ some k =
              ground (arith, split, f, h) in
            rw (loop-again n a j p e refused, begun)
              (update_loop_settles n (suc a) (j + 5) p' k (omega arith) later)
      ]

  abbrev pub update : Updated B
  update = update_metadata_pg c server now tenant_id metadata

  -- The end of a call whose first settled transaction is the given one.
  abbrev pub EndsWith : Option ℕ → Updated B → Type 0
  EndsWith none u = Gives u (raise tenancy) (server.found 25) 25
  EndsWith (some k) u =
      let v = settled c server now tenant_id metadata (tried k) (suc k) 0 in
      Gives u v.result v.rows (suc k)

  -- On PostgreSQL update_metadata ends as the first of its transactions that is not refused for a
  -- serialization failure, and begins none after it; it begins 25 and raises TenancyError when all
  -- are refused.
  pub update_metadata_settles : EndsWith (first_settled server.fate 25 0) update
  unfolding update_metadata_pg
  update_metadata_settles = elim (Option-cases (first_settled server.fate 25 0)) [
    | inl f ↦ rw f (update_loop_conflicts 4 0 0 0 refl f)
    | inr (k, f) ↦ rw f (update_loop_settles 4 0 0 0 k refl f)
  ]

  pg_loop-bounds : (j p : ℕ) → ((pg 5 0 j p).1 ≤ j + 5) × ((pg 5 0 j p).2 ≤ p + 75)
  unfolding pg_loop backoff
  pg_loop-bounds j p = ground arith

  -- The longest pauses of n + 1 rounds from an attempt on.
  abbrev pauses : ℕ → ℕ → ℕ
  pauses zero a = 75
  pauses (suc n) a = 75 + backoff a + pauses n (suc a)

  update_loop-bounds :
      (n a j p : ℕ)
      → a + n ≡ 4
      → ((loop (suc n) a j p).started ≤ j + rounds (suc n))
        × ((loop (suc n) a j p).paused ≤ p + pauses n a)
  unfolding update_loop
  update_loop-bounds zero a j p e = ground (arith, pg_loop-bounds j p)
  update_loop-bounds (suc n) a j p e =
      let next = pg 5 0 j p in
      ground (arith, pg_loop-bounds j p, update_loop-bounds n (suc a) next.1 (next.2 + backoff a))

  -- A metadata merge on PostgreSQL begins at most 25 transactions and pauses for at most 450 ms.
  pub update_metadata_bounds : (update.started ≤ 25) × (update.paused ≤ 450)
  unfolding update_metadata_pg backoff
  update_metadata_bounds = update_loop-bounds 4 0 0 0 refl
