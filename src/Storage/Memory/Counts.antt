-- ===== src/Storage/Memory/Counts.antt =====
-- statistics of InMemoryTenantStore against count.
use fastapi_tenancy.Prelude.{
  ℕ, ◌+◌, ◌≡◌, refl, ◌∙◌, Text, text_dec, none, some, List, [], ◌∷◌, true, false, ite, length, keep,
  arith,
}
use native.Mathlib.Decide.{ℕ_discrete}
use fastapi_tenancy.Prelude.Dict.{Dict, get, values, get-put}
use fastapi_tenancy.Core.Types.{
  Tenant, TenantStatus, status_eq, status_value, active, suspended, deleted, provisioning,
}
use fastapi_tenancy.Storage.Memory.{MemoryStore, statistics, tally, bump, count}
use fastapi_tenancy.Storage.Memory.Consistent.{IsConsistent}

-- The number that a dictionary of counts holds for a key.
abbrev pub counted : Text → Dict ℕ → ℕ
counted k d = elim (get k d) [ none ↦ 0 | some n ↦ n ]

-- Distinct statuses have distinct texts.
status_value-dec :
    (a b : TenantStatus)
    → ite (text_dec (status_value a) (status_value b)) true false ≡ status_eq a b
unfolding status_value text_dec status_eq ℕ_discrete
status_value-dec active active = refl
status_value-dec active suspended = refl
status_value-dec active deleted = refl
status_value-dec active provisioning = refl
status_value-dec suspended active = refl
status_value-dec suspended suspended = refl
status_value-dec suspended deleted = refl
status_value-dec suspended provisioning = refl
status_value-dec deleted active = refl
status_value-dec deleted suspended = refl
status_value-dec deleted deleted = refl
status_value-dec deleted provisioning = refl
status_value-dec provisioning active = refl
status_value-dec provisioning suspended = refl
status_value-dec provisioning deleted = refl
status_value-dec provisioning provisioning = refl

counted-tally :
    (st : TenantStatus) (ts : List Tenant) (d : Dict ℕ)
    → counted (status_value st) (tally ts d)
      ≡ counted (status_value st) d + length (keep (λ t. status_eq t.status st) ts)
unfolding tally
counted-tally st [] d = omega arith
counted-tally st (t ∷ ts) d = ground (
  arith,
  counted-tally st ts (bump (status_value t.status) d),
  get-put (status_value st) (status_value t.status) (counted (status_value t.status) d + 1) d,
  status_value-dec t.status st,
)

-- statistics() reports for each status what count(status) returns, nothing for a status being 0; on
-- a consistent store the size of the index is the total, which is what count() returns.
pub statistics-count :
    (s : MemoryStore) (st : TenantStatus)
    → IsConsistent s
    → (counted (status_value st) (statistics s).by_status ≡ count s (some st))
      × ((statistics s).total ≡ count s none)
      × ((statistics s).identifier_index_size ≡ (statistics s).total)
unfolding statistics count get
statistics-count s st c = (counted-tally st (values s.tenants) [] ∙ omega arith, refl, c.sizes)
