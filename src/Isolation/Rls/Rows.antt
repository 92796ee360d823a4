-- ===== src/Isolation/Rls/Rows.antt =====
-- isolation/rls.py: the rows that destroy_tenant leaves.
use fastapi_tenancy.Prelude.{
  ◌≡◌, refl, ap, sym, ◌∙◌, none, true, not, Text, text_dec, text_eq, List, [], ◌∷◌, some, Bool,
  false, ◌||◌, ◌&&◌, arith, Bool-cases, Option-cases, inl, inr, if◌then◌else◌,
}
use fastapi_tenancy.Prelude.Dict.{get, put, get-put}
use fastapi_tenancy.Core.Types.{Tenant}
use fastapi_tenancy.Core.Exceptions.{ok, raise, Error}
use fastapi_tenancy.Isolation.Rls.{Table, Row, Database, delete_rows, delete_loop, destroy_tenant}

-- Whether a table of that name in the metadata has the column.
unfoldable pub is_shared : List Table → Text → Bool
is_shared [] k = false
is_shared (t ∷ ts) k =
    let later = is_shared ts k in t.has_tenant_column && text_eq t.name k || later

-- The rows of the other tenants, in their order.
unfoldable pub others : Text → List Row → List Row
others i [] = []
others i (r ∷ rows) = elim (text_dec r.tenant_id i) [
  | yes p ↦ others i rows
  | no n ↦ r ∷ others i rows
]

delete_rows-others : (i : Text) (rows : List Row) → delete_rows false none i rows ≡ others i rows
unfolding delete_rows others
delete_rows-others i [] = refl
delete_rows-others i (r ∷ rows) = elim (text_dec r.tenant_id i) [
  | yes p ↦ ground (arith, delete_rows-others i rows, p)
  | no n ↦ ground (arith, delete_rows-others i rows, n)
]

delete_rows-enforced : (i : Text) (rows : List Row) → delete_rows true none i rows ≡ rows
unfolding delete_rows
delete_rows-enforced i [] = refl
delete_rows-enforced i (r ∷ rows) = ground (arith, delete_rows-enforced i rows)

others-twice : (i : Text) (rows : List Row) → others i (others i rows) ≡ others i rows
unfolding others
others-twice i [] = refl
others-twice i (r ∷ rows) = elim (text_dec r.tenant_id i) [
  | yes p ↦ ground (arith, others-twice i rows, p)
  | no n ↦ ground (arith, others-twice i rows, n)
]

delete_rows-twice :
    (b : Bool) (i : Text) (rows : List Row)
    → delete_rows b none i (delete_rows b none i rows) ≡ delete_rows b none i rows
delete_rows-twice true i rows = delete_rows-enforced i (delete_rows true none i rows)
delete_rows-twice false i rows =
    delete_rows-others i (delete_rows false none i rows)
    ∙ ap (others i) (delete_rows-others i rows)
    ∙ others-twice i rows
    ∙ sym (delete_rows-others i rows)

-- What a removal leaves of a table: without an enforced policy the rows of the other tenants.
abbrev pub remaining : (Text → Bool) → List Table → Text → Text → List Row → List Row
remaining enforced tables i k rows =
    if is_shared tables k && not (enforced k) then others i rows else rows

deleted-remaining :
    (enforced : Text → Bool) (tables : List Table) (i k : Text) (rows : List Row)
    → (if is_shared tables k then delete_rows (enforced k) none i rows else rows)
      ≡ remaining enforced tables i k rows
deleted-remaining enforced tables i k rows = elim (Bool-cases (enforced k)) [
  | inl e ↦ ground (arith, e, delete_rows-enforced i rows)
  | inr e ↦ ground (arith, e, delete_rows-others i rows)
]

delete_loop-remaining :
    (enforced fails : Text → Bool) (i k : Text) (tables : List Table) (db after : Database)
    (rows : List Row)
    → delete_loop enforced fails i tables db ≡ some after
    → get k db ≡ some rows
    → get k after ≡ some (if is_shared tables k then delete_rows (enforced k) none i rows else rows)
unfolding delete_loop is_shared
delete_loop-remaining enforced fails i k [] db after rows h g = ground (arith, h, g)
delete_loop-remaining enforced fails i k (t ∷ ts) db after rows h g =
    elim (Bool-cases t.has_tenant_column) [
      | inr e ↦ ground (
        arith,
        e,
        delete_loop-remaining enforced fails i k ts db after rows (ground (arith, e, h)) g,
      )
      | inl e ↦ elim (Option-cases (get t.name db)) [
        | inl f ↦ ground (arith, e, f, h)
        | inr (old, f) ↦
            let db' = put t.name (delete_rows (enforced t.name) none i old) db in
            let there = get-put k t.name (delete_rows (enforced t.name) none i old) db in
            let rest : delete_loop enforced fails i ts db' ≡ some after = ground (arith, e, f, h) in
            elim (text_dec t.name k) [
              | yes p ↦
                  let later =
                    delete_loop-remaining enforced fails i k ts db' after
                      (delete_rows (enforced k) none i rows) rest
                      (ground (arith, there, f, g, p)) in
                  ground (arith, e, later, p, delete_rows-twice (enforced k) i rows)
              | no n ↦
                  let later =
                    delete_loop-remaining enforced fails i k ts db' after rows rest
                      (ground (arith, there, g, n)) in
                  ground (arith, e, later, n)
            ]
      ]
    ]

kept :
    (enforced : Text → Bool) (tables : List Table) (i k : Text) (rows : List Row)
    → enforced k ≡ true
    → remaining enforced tables i k rows ≡ rows
kept enforced tables i k rows e = ground (arith, e)

-- A removal that returns leaves, in every table of the metadata that has the column and on which no
-- policy is enforced, the rows of the other tenants in their order, and any other table as it was;
-- one that raises has deleted nothing.
pub destroy_tenant-remaining :
    (enforced fails : Text → Bool) (tables : List Table) (t : Tenant) (db : Database)
    → ((destroy_tenant enforced fails (some tables) t db).0 ≡ ok tt
        → (k : Text) (rows : List Row) → get k db ≡ some rows
        → get k (destroy_tenant enforced fails (some tables) t db).1
          ≡ some (remaining enforced tables t.id k rows))
      × ((e : Error)
          → (destroy_tenant enforced fails (some tables) t db).0 ≡ raise e
          → (destroy_tenant enforced fails (some tables) t db).1 ≡ db)
unfolding destroy_tenant
destroy_tenant-remaining enforced fails tables t db =
    elim (Option-cases (delete_loop enforced fails t.id tables db)) [
      | inl f ↦ (λ h. ground (arith, f, h), λ e h. ground (arith, f))
      | inr (after, f) ↦ (
        λ h k rows g.
            let deleted = delete_loop-remaining enforced fails t.id k tables db after rows f g in
            let same = deleted-remaining enforced tables t.id k rows in
            rw f (deleted ∙ ap some same),
        λ e h. ground (arith, f, h),
      )
    ]

-- A removal that returns deletes nothing of a table on which a policy is enforced, as the provider's
-- guide asks for: nothing sets app.current_tenant in its session, so that the policy lets none of the
-- rows through, those of the removed tenant included.
pub destroy_tenant-enforced :
    (enforced fails : Text → Bool) (tables : List Table) (t : Tenant) (db : Database) (k : Text)
    (rows : List Row)
    → (destroy_tenant enforced fails (some tables) t db).0 ≡ ok tt
    → get k db ≡ some rows
    → enforced k ≡ true
    → get k (destroy_tenant enforced fails (some tables) t db).1 ≡ some rows
destroy_tenant-enforced enforced fails tables t db k rows h g e =
    (destroy_tenant-remaining enforced fails tables t db).0 h k rows g
    ∙ ap some (kept enforced tables t.id k rows e)
