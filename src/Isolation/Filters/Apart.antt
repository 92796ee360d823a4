-- ===== src/Isolation/Filters/Apart.antt =====
-- isolation/rls.py: what the filtered queries of tenants give once a tenant is destroyed.
use fastapi_tenancy.Prelude.{
  ◌≡◌, ◌≢◌, refl, sym, ◌∙◌, Text, text_dec, text_eq, List, [], ◌∷◌, some, Bool, true, false, arith,
}
use fastapi_tenancy.Prelude.Dict.{get}
use fastapi_tenancy.Core.Types.{Tenant}
use fastapi_tenancy.Core.Exceptions.{ok}
use fastapi_tenancy.Isolation.Filters.{Query, rls_filters, select}
use fastapi_tenancy.Isolation.Rls.{Table, Row, Database, destroy_tenant}
use fastapi_tenancy.Isolation.Rls.Rows.{is_shared, others, destroy_tenant-remaining}

module _ (f : Query) where
  select_gone : (t : Tenant) (rows : List Row) → select (rls_filters f t) (others t.id rows) ≡ []
  unfolding others rls_filters
  select_gone t [] = refl
  select_gone t (r ∷ rows) = elim (text_dec r.tenant_id t.id) [
    | yes p ↦ ground (arith, p, select_gone t rows)
    | no n ↦ ground (arith, n, select_gone t rows)
  ]

  select_kept :
      (t u : Tenant) (rows : List Row)
      → u.id ≢ t.id
      → select (rls_filters f u) (others t.id rows) ≡ select (rls_filters f u) rows
  unfolding others rls_filters
  select_kept t u [] h = refl
  select_kept t u (r ∷ rows) h = elim (text_dec r.tenant_id t.id) [
    | yes p ↦
        let other : text_eq r.tenant_id u.id ≡ false = elim (text_dec r.tenant_id u.id) [
          | yes q ↦ elim (h (sym q ∙ p)) [ ]
          | no q ↦ ground (arith, q)
        ] in
        ground (arith, p, other, select_kept t u rows h)
    | no n ↦ ground (arith, n, select_kept t u rows h)
  ]

-- After a removal that returns, in a table of the metadata that has the column and on which no policy
-- is enforced on the program's role, a filtered query of the removed tenant gives no row, and one of any other tenant gives the rows that it gave before.
pub destroy_tenant-filters :
    (enforced fails : Text → Bool) (tables : List Table) (t u : Tenant) (db : Database) (k : Text)
    (rows : List Row) (f : Query)
    → (destroy_tenant enforced fails (some tables) t db).0 ≡ ok tt
    → get k db ≡ some rows
    → is_shared tables k ≡ true
    → enforced k ≡ false
    → u.id ≢ t.id
    → (after : List Row) × (get k (destroy_tenant enforced fails (some tables) t db).1 ≡ some after)
      × (select (rls_filters f t) after ≡ [])
      × (select (rls_filters f u) after ≡ select (rls_filters f u) rows)
destroy_tenant-filters enforced fails tables t u db k rows f h g s e n = (
  others t.id rows,
  rw (s, e) at ((destroy_tenant-remaining enforced fails tables t db).0 h k rows g),
  select_gone f t rows,
  select_kept f t u rows n,
)
