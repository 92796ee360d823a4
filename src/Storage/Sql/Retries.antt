-- ===== src/Storage/Sql/Retries.antt =====
-- storage/database.py: the metadata merge on PostgreSQL, update_metadata around
-- _update_metadata_pg. The server is a parameter: how each transaction ends, which table it finds,
-- since others commit between two, and the value that the UPDATE statement computes. Transactions are
-- numbered from 0 over one call; the pauses are in milliseconds.
pub mod Settled
use fastapi_tenancy.Prelude.{
  ℕ, zero, suc, ◌+◌, ◌*◌, Text, Option, none, some, Bool, ltb, if◌then◌else◌,
}
use fastapi_tenancy.Prelude.Dict.{Dict, get, put}
use fastapi_tenancy.Core.Types.{Tenant, Json}
use fastapi_tenancy.Core.Exceptions.{Result, ok, raise, tenant_not_found, tenancy}
use fastapi_tenancy.Storage.Sql.{Codec, TenantModel, to_domain}

-- What the server does with a transaction: run it, refuse it with a serialization failure, or fail
-- otherwise.
pub data Fate : Type 0 where
  runs conflicts breaks : Fate

pub record Server (B : Type 0) : Type 0 where
  pub fate : ℕ → Fate
  pub found : ℕ → Dict (TenantModel B)
  -- the stored metadata, or '{}', merged with the patch; nothing where a cast fails
  pub merged : B → B → Option B

-- How _update_metadata_pg ends: the tenant, TenantNotFoundError, a serialization failure, or any
-- other exception; with the table that is left.
pub data Ended (B : Type 0) : Type 0 where
  returned : Tenant → Dict (TenantModel B) → Ended B
  missing : Dict (TenantModel B) → Ended B
  conflict : Ended B
  broken : Dict (TenantModel B) → Ended B

-- The result of a call, the table, the transactions begun and the time paused.
pub record Updated (B : Type 0) : Type 0 where
  pub result : Result Tenant
  pub rows : Dict (TenantModel B)
  pub started : ℕ
  pub paused : ℕ

abbrev pub max_retries : ℕ
max_retries = 5

-- _BASE_BACKOFF * (2**attempt)
unfoldable pub backoff : ℕ → ℕ
backoff zero = 5
backoff (suc attempt) = 2 * backoff attempt

module _ {B : Type 0} (c : Codec B) (server : Server B) (now : ℕ) (tenant_id : Text)
    (metadata : Dict Json) where
  -- to_domain runs after the commit.
  abbrev pub read_back : Dict (TenantModel B) → Result Tenant → Ended B
  read_back rows (ok t) = returned t rows
  read_back rows (raise e) = broken rows

  abbrev pub store_merged : Dict (TenantModel B) → TenantModel B → Option B → Ended B
  store_merged rows m none = broken rows
  store_merged rows m (some b) =
      let m' : TenantModel B = record m { tenant_metadata = b; updated_at = now } in
      read_back (put tenant_id m' rows) (to_domain c m')

  abbrev pub run_update : Dict (TenantModel B) → Option (TenantModel B) → Ended B
  run_update rows none = missing rows
  run_update rows (some m) =
      store_merged rows m (server.merged m.tenant_metadata (c.dumps metadata))

  unfoldable pub transaction : ℕ → Ended B
  unfolding to_domain
  transaction j = elim (server.fate j) [
    | conflicts ↦ conflict
    | breaks ↦ broken (server.found j)
    | runs ↦ run_update (server.found j) (get tenant_id (server.found j))
  ]

  -- The loop of _update_metadata_pg, with the attempts left, the attempt, the transactions begun and
  -- the time paused.
  unfoldable pub pg_loop : ℕ → ℕ → ℕ → ℕ → Ended B × ℕ × ℕ
  unfolding transaction backoff
  pg_loop zero attempt j paused = (broken (server.found j), j, paused)
  pg_loop (suc left) attempt j paused =
      let again = pg_loop left (suc attempt) (suc j) (paused + backoff attempt) in
      elim (transaction j) [
        | conflict ↦ if ltb (suc attempt) max_retries then again else (conflict, suc j, paused)
        | returned t rows ↦ (returned t rows, suc j, paused)
        | missing rows ↦ (missing rows, suc j, paused)
        | broken rows ↦ (broken rows, suc j, paused)
      ]

  abbrev pub gives : Result Tenant → Dict (TenantModel B) → ℕ → ℕ → Updated B
  gives result rows started paused = record {
    result = result;
    rows = rows;
    started = started;
    paused = paused;
  }

  -- What update_metadata makes of an end that it does not try again after.
  abbrev pub settled : Ended B → ℕ → ℕ → Updated B
  settled (returned t rows) j paused = gives (ok t) rows j paused
  settled (missing rows) j paused = gives (raise (tenant_not_found (some tenant_id))) rows j paused
  settled (broken rows) j paused = gives (raise tenancy) rows j paused
  settled conflict j paused = gives (raise tenancy) (server.found j) j paused

  unfoldable pub update_loop : ℕ → ℕ → ℕ → ℕ → Updated B
  unfolding pg_loop backoff
  update_loop zero attempt j paused = gives (raise tenancy) (server.found j) j paused
  update_loop (suc left) attempt j paused =
      let (ended, j', paused') = pg_loop max_retries 0 j paused in
      let again = update_loop left (suc attempt) j' (paused' + backoff attempt) in
      elim ended [
        | conflict ↦ if ltb (suc attempt) max_retries then again else settled conflict j' paused'
        | other ↦ settled other j' paused'
      ]

  unfoldable pub update_metadata_pg : Updated B
  unfolding update_loop
  update_metadata_pg = update_loop max_retries 0 0 0
