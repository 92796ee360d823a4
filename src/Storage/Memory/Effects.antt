-- ===== src/Storage/Memory/Effects.antt =====
-- What the methods that write leave behind.
use fastapi_tenancy.Prelude.{ℕ, ◌≡◌, Text, text_dec, none, some, arith, Option-cases, ite, inl, inr}
use fastapi_tenancy.Prelude.Dict.{Dict, get, get-put, get-del}
use fastapi_tenancy.Core.Types.{Tenant, TenantStatus, Json}
use fastapi_tenancy.Core.Exceptions.{ok, raise, Error}
use fastapi_tenancy.Storage.Memory.{
  MemoryStore, Step, create, update, delete, set_status, update_metadata,
}
use fastapi_tenancy.Storage.Memory.Consistent.{IsConsistent}

-- The methods that store one tenant.
pub data Write : Type 0 where
  creates : Tenant → Write
  updates : ℕ → Tenant → Write
  sets_status : ℕ → Text → TenantStatus → Write
  updates_metadata : ℕ → Text → Dict Json → Write

abbrev pub run : Write → Step Tenant
run (creates t) = create t
run (updates now t) = update now t
run (sets_status now k st) = set_status now k st
run (updates_metadata now k m) = update_metadata now k m

-- A method that raises changes nothing.
pub write-raise :
    (w : Write) (s : MemoryStore) (e : Error) → (run w s).0 ≡ raise e → (run w s).1 ≡ s
unfolding create update set_status update_metadata
write-raise (creates t) s e h = ground arith
write-raise (updates now t) s e h = ground arith
write-raise (sets_status now k st) s e h = ground arith
write-raise (updates_metadata now k m) s e h = ground arith

pub delete-raise :
    (k : Text) (s : MemoryStore) (e : Error) → (delete k s).0 ≡ raise e → (delete k s).1 ≡ s
unfolding delete
delete-raise k s e h = ground arith

-- The tenant that a method returns is what the store then has under its id; every other id keeps
-- what it had.
pub write-stores :
    (w : Write) (s : MemoryStore) (t : Tenant) (j : Text)
    → IsConsistent s
    → (run w s).0 ≡ ok t
    → get j (run w s).1.tenants ≡ ite (text_dec t.id j) (some t) (get j s.tenants)
unfolding create update set_status update_metadata
write-stores (creates u) s t j c h = ground (arith, get-put j u.id u s.tenants)
write-stores (updates now u) s t j c h = ground (arith, get-put j u.id t s.tenants)
write-stores (sets_status now k st) s t j c h = elim (Option-cases (get k s.tenants)) [
  | inl e ↦ ground (arith, e)
  | inr (u, e) ↦ ground (arith, e, get-put j k t s.tenants, c.under_id k u e)
]
write-stores (updates_metadata now k m) s t j c h = elim (Option-cases (get k s.tenants)) [
  | inl e ↦ ground (arith, e)
  | inr (u, e) ↦ ground (arith, e, get-put j k t s.tenants, c.under_id k u e)
]

-- A deleted tenant is in neither index, and every other tenant stays.
pub delete-removes :
    (k : Text) (s : MemoryStore) (j : Text)
    → (delete k s).0 ≡ ok tt
    → get j (delete k s).1.tenants ≡ ite (text_dec k j) none (get j s.tenants)
unfolding delete
delete-removes k s j h = ground (arith, get-del j k s.tenants)
