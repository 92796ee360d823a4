-- ===== src/Isolation/Schema/Collision.antt =====
-- isolation/schema.py: destroy_tenant in prefix mode, on the tables of another tenant.
use mathlib.Core.Path.{subst}
use fastapi_tenancy.Prelude.{
  ◌≡◌, refl, sym, ◌∙◌, Text, starts_with, List, [], ◌∷◌, ◌++◌, keep, contains, some, Bool, true,
  false, arith, inl, inr, Bool-cases, text_dec, ap, ◌⊎◌,
}
use fastapi_tenancy.Core.Types.{Tenant}
use fastapi_tenancy.Core.Exceptions.{ok}
use fastapi_tenancy.Core.Config.{TenancyConfig}
use fastapi_tenancy.Utils.DbCompat.{sqlite, make_table_prefix}
use fastapi_tenancy.Utils.Validation.{validate_schema_name}
use fastapi_tenancy.Isolation.Schema.{Action, executed, Database, Run, drop_table_sql}
use fastapi_tenancy.Isolation.Schema.Provisioning.{
  drop_tables, destroy_prefix, or_isolation, destroy_tenant,
}

starts_with-append : (p q r : Text) → starts_with p q ≡ true → starts_with p (q ++ r) ≡ true
unfolding starts_with
starts_with-append [] q r h = refl
starts_with-append (c ∷ p) [] r h = cc
starts_with-append (c ∷ p) (d ∷ q) r h = ground (arith, starts_with-append p q r)

contains-keep :
    (p : Text → Bool) (x : Text) (names : List Text)
    → p x ≡ true
    → contains names x ≡ true
    → contains (keep p names) x ≡ true
unfolding contains
contains-keep p x [] h k = k
contains-keep p x (n ∷ names) h k = elim (text_dec n x) [
  | yes e ↦ ground (arith, e, h)
  | no e ↦ ground (arith, e, contains-keep p x names h)
]

-- The table is dropped by one of the actions.
abbrev pub Drops : Text → List Action → Type 0
Drops table [] = ⊥
Drops table (a ∷ rest) = (a ≡ executed (drop_table_sql table)) ⊎ Drops table rest

drop_tables-Drops :
    (db : Database) (names : List Text) (table : Text)
    → (drop_tables db names).0 ≡ true
    → contains names table ≡ true
    → Drops table (drop_tables db names).1
unfolding drop_tables contains
drop_tables-Drops db [] table h k = cc
drop_tables-Drops db (n ∷ names) table h k = elim (Bool-cases (validate_schema_name n)) [
  | inr e ↦ ground (arith, e, h)
  | inl e ↦ elim (Bool-cases (db.succeeds (executed (drop_table_sql n)))) [
    | inr f ↦ ground (arith, e, f, h)
    | inl f ↦
        rw (e, f, drop_tables)
          (elim (text_dec n table) [
            | yes p ↦ inl (ap (λ x. executed (drop_table_sql x)) p)
            | no q ↦
                inr (
                  drop_tables-Drops db names table (ground (arith, e, f, h)) (ground (arith, q, k)))
          ])
  ]
]

or_isolation-ok :
    (r : Bool × List Action)
    → (or_isolation r).0 ≡ ok tt
    → (r.0 ≡ true) × ((or_isolation r).1 ≡ r.1)
or_isolation-ok (true, tried) h = (refl, refl)
or_isolation-ok (false, tried) h = cc

-- In prefix mode: where the table prefix of one tenant begins the prefix of another, as for the
-- identifiers acme and acme-corp, a removal of the first that returns has dropped every table of the
-- second.
pub destroy_tenant-Drops :
    (lower : Text → Text) (delegate : Run) (db : Database) (config : TenancyConfig) (t u : Tenant)
    (names : List Text) (table : Text)
    → starts_with (make_table_prefix lower t.identifier) (make_table_prefix lower u.identifier)
      ≡ true
    → db.table_names ≡ some names
    → contains names (make_table_prefix lower u.identifier ++ table) ≡ true
    → (destroy_tenant lower delegate db sqlite config t).0 ≡ ok tt
    → Drops
        (make_table_prefix lower u.identifier ++ table)
        (destroy_tenant lower delegate db sqlite config t).1
unfolding destroy_tenant destroy_prefix
destroy_tenant-Drops lower delegate db config t u names table begins listed there h =
    let p = make_table_prefix lower t.identifier in
    let x = make_table_prefix lower u.identifier ++ table in
    let kept = keep (starts_with p) names in
    let named =
      contains-keep (starts_with p) x names
        (starts_with-append p (make_table_prefix lower u.identifier) table begins) there in
    let run : destroy_prefix db p ≡ or_isolation (drop_tables db kept) =
      rw (listed, destroy_prefix) refl in
    let (fine, tried) = or_isolation-ok (drop_tables db kept) (sym (ap (λ r. r.0) run) ∙ h) in
    subst (Drops x) (sym (ap (λ r. r.1) run ∙ tried)) (drop_tables-Drops db kept x fine named)
