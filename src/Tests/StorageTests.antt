-- ===== src/Tests/StorageTests.antt =====
-- The in-memory store.
use fastapi_tenancy.Prelude.{
  ◌≡◌, ◌≤◌, refl, text_dec, codes, none, some, [], ◌∷◌, is_infix, length, keep, arith,
}
use fastapi_tenancy.Prelude.Dict.{get, put, values}
use fastapi_tenancy.Prelude.Sorting.{sort_desc}
use fastapi_tenancy.Core.Types.{Tenant}
use fastapi_tenancy.Core.Exceptions.{ok, raise, value_error}
use fastapi_tenancy.Storage.TenantStore.{found_in}
use fastapi_tenancy.Storage.Memory.{get_by_identifier, list, count, create, update, delete}
use fastapi_tenancy.Storage.Memory.Consistent.{IsConsistent}
use fastapi_tenancy.Storage.Memory.Reach.{
  Reach, start, next, Call, Reach-IsConsistent, update-steals,
}
use fastapi_tenancy.Tests.Samples.{acme, globex, two_tenants}

-- The store after two creations is reached.
two_tenants-Reach : Reach two_tenants
two_tenants-Reach = next (next start (Call.creates acme)) (Call.creates globex)

two_tenants-IsConsistent : IsConsistent two_tenants
two_tenants-IsConsistent = Reach-IsConsistent two_tenants-Reach

finds_acme : get_by_identifier two_tenants (codes "acme-corp") ≡ ok acme
unfolding get_by_identifier create get put text_dec
finds_acme = refl

refuses_duplicate : (create acme two_tenants).0 ≡ raise value_error
unfolding create get put text_dec
refuses_duplicate = refl

newest_first : list two_tenants 0 10 none ≡ globex ∷ acme ∷ []
unfolding list create get put text_dec sort_desc
newest_first = refl

deletes_acme : (delete (codes "t1") two_tenants).0 ≡ ok tt
unfolding delete create get put text_dec
deletes_acme = refl

holds_acme : get (codes "t1") two_tenants.tenants ≡ some acme
unfolding create get put text_dec
holds_acme = refl

count_all : count two_tenants none ≤ 10
unfolding count create get put text_dec
count_all = omega arith

holds_globex : get (codes "globex") two_tenants.identifier_map ≡ some (codes "t2")
unfolding create get put text_dec
holds_globex = refl

all_match : length (keep (found_in (λ s. s) (codes "e")) (values two_tenants.tenants)) ≤ 10
unfolding create get put text_dec is_infix
all_match = omega arith

abbrev renamed : Tenant
renamed = record acme { identifier = codes "globex" }

Reach-IsConsistent_example : IsConsistent two_tenants
Reach-IsConsistent_example = Reach-IsConsistent two_tenants-Reach

update-steals_example : ¬ IsConsistent (update 30 renamed two_tenants).1
update-steals_example =
    update-steals 30 renamed acme (codes "t2") two_tenants two_tenants-IsConsistent holds_acme
      holds_globex (λ e. ground arith)
