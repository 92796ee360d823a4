-- ===== src/Isolation/Database/Provisioning/Lifecycle.antt =====
-- isolation/database.py: what provisioning and removal leave on the server.
use fastapi_tenancy.Prelude.{
  ℕ, ◌≡◌, ◌≢◌, refl, sym, ap, ◌∙◌, Text, text_eq, contains, List, [], ◌∷◌, Bool, true, false, not,
  ◌&&◌, ◌||◌, arith, inl, inr,
}
use fastapi_tenancy.Core.Types.{Tenant}
use fastapi_tenancy.Core.Config.{TenancyConfig}
use fastapi_tenancy.Core.Exceptions.{Result, ok, Result-cases}
use fastapi_tenancy.Isolation.Database.{database_name}
use fastapi_tenancy.Isolation.Engines.{get_engine}
use fastapi_tenancy.Utils.DbCompat.{DbDialect, postgresql, sqlite, mysql, mssql, unknown}
use fastapi_tenancy.Utils.Validation.{validate_database_name}
use fastapi_tenancy.Isolation.Database.Provisioning.{
  State, Faults, without, create_database, drop_database, create_tables, initialize_server,
  initialize_tenant, destroy_server, destroy_tenant, has_database, verify_isolation,
}

-- A server whose databases the provider creates and drops.
abbrev pub HasServer : DbDialect → Type 0
HasServer postgresql = Unit
HasServer mysql = Unit
HasServer dialect = ⊥

contains-without :
    (name k : Text) (names : List Text)
    → contains (without name names) k ≡ (not (text_eq k name) && contains names k)
unfolding contains
contains-without name k [] = ground arith
contains-without name k (n ∷ names) = ground (arith, contains-without name k names)

contains-create_database :
    (d : DbDialect) (name k : Text) (names : List Text)
    → HasServer d
    → contains (create_database d name names) k ≡ (text_eq name k || contains names k)
unfolding create_database contains
contains-create_database postgresql name k names h = ground arith
contains-create_database mysql name k names h = ground arith
contains-create_database sqlite name k names h = elim h [ ]
contains-create_database mssql name k names h = elim h [ ]
contains-create_database unknown name k names h = elim h [ ]

contains-drop_database :
    (d : DbDialect) (name k : Text) (names : List Text)
    → HasServer d
    → contains (drop_database d name names) k ≡ (not (text_eq k name) && contains names k)
unfolding drop_database
contains-drop_database postgresql name k names h = contains-without name k names
contains-drop_database mysql name k names h = contains-without name k names
contains-drop_database sqlite name k names h = elim h [ ]
contains-drop_database mssql name k names h = elim h [ ]
contains-drop_database unknown name k names h = elim h [ ]

module _ (lower : Text → Text) (format : Text → Text → Text → Text) (path_of : Text → Text)
    (config : TenancyConfig) (faults : Faults) where
  by_server :
      (d : DbDialect) (metadata : Bool) (t : Tenant) (engine : ℕ) (s : State)
      → HasServer d
      → initialize_tenant lower format path_of config faults d metadata t engine s
        ≡ initialize_server lower format path_of config faults d metadata t engine s
  unfolding initialize_tenant
  by_server postgresql m t engine s h = refl
  by_server mysql m t engine s h = refl
  by_server sqlite m t engine s h = elim h [ ]
  by_server mssql m t engine s h = elim h [ ]
  by_server unknown m t engine s h = elim h [ ]

  from_server :
      (d : DbDialect) (t : Tenant) (s : State)
      → HasServer d
      → destroy_tenant lower format path_of config faults d t s
        ≡ destroy_server lower format path_of config faults d t s
  unfolding destroy_tenant
  from_server postgresql t s h = refl
  from_server mysql t s h = refl
  from_server sqlite t s h = elim h [ ]
  from_server mssql t s h = elim h [ ]
  from_server unknown t s h = elim h [ ]

  verify-contains :
      (d : DbDialect) (t : Tenant) (s : State)
      → HasServer d
      → validate_database_name (database_name lower t) ≡ true
      → faults.statement ≡ false
      → verify_isolation lower format path_of config faults d t s
        ≡ contains s.databases (database_name lower t)
  unfolding verify_isolation has_database
  verify-contains postgresql t s h v f = ground (arith, v, f)
  verify-contains mysql t s h v f = ground (arith, v, f)
  verify-contains sqlite t s h v f = elim h [ ]
  verify-contains mssql t s h v f = elim h [ ]
  verify-contains unknown t s h v f = elim h [ ]

module _ (lower : Text → Text) (format : Text → Text → Text → Text) (path_of : Text → Text)
    (config : TenancyConfig) (faults : Faults) (d : DbDialect) (server : HasServer d)
    (t : Tenant) where
  abbrev pub name : Text
  name = database_name lower t

  abbrev pub tables : Bool → ℕ → State → Result (Unit {0}) × State
  tables metadata = create_tables lower format path_of config faults metadata t

  abbrev pub initialize : Bool → ℕ → State → Result (Unit {0}) × State
  initialize metadata = initialize_tenant lower format path_of config faults d metadata t

  abbrev pub destroy : State → Result (Unit {0}) × State
  destroy = destroy_tenant lower format path_of config faults d t

  abbrev pub verify : State → Bool
  verify = verify_isolation lower format path_of config faults d t

  create_tables-databases :
      (metadata : Bool) (engine : ℕ) (s : State)
      → (tables metadata engine s).1.databases ≡ s.databases
  unfolding create_tables
  create_tables-databases false engine s = refl
  create_tables-databases true engine s = elim (Result-cases (get_engine t.id engine s.engines)) [
    | inl (a, e) ↦ rw (e, create_tables) refl
    | inr (x, e) ↦ rw (e, create_tables) refl
  ]

  initialize_server-ok :
      (metadata : Bool) (engine : ℕ) (s : State)
      → (initialize_server lower format path_of config faults d metadata t engine s).0 ≡ ok tt
      → (validate_database_name name ≡ true)
        × (faults.statement ≡ false)
        × ((initialize_server lower format path_of config faults d metadata t engine s).1.databases
            ≡ create_database d name s.databases)
  unfolding initialize_server
  initialize_server-ok metadata engine s h =
      let s' : State = record s { databases = create_database d name s.databases } in
      ground (arith, create_tables-databases metadata engine s', h)

  destroy_server-ok :
      (s : State)
      → (destroy_server lower format path_of config faults d t s).0 ≡ ok tt
      → (destroy_server lower format path_of config faults d t s).1.databases
        ≡ drop_database d name s.databases
  unfolding destroy_server
  destroy_server-ok s h = ground (arith, h)

  -- On PostgreSQL and MySQL, for a tenant that initialize_tenant and then destroy_tenant return for:
  -- verify_isolation holds after the first and fails after the second; no other database is
  -- created or dropped by either.
  pub destroy_tenant-initialize_tenant :
      (metadata : Bool) (engine : ℕ) (s : State) (k : Text)
      → (initialize metadata engine s).0 ≡ ok tt
      → (destroy (initialize metadata engine s).1).0 ≡ ok tt
      → k ≢ name
      → let s1 = (initialize metadata engine s).1 in
        let s2 = (destroy s1).1 in
        (verify s1 ≡ true)
        × (verify s2 ≡ false)
        × (contains s1.databases k ≡ contains s.databases k)
        × (contains s2.databases k ≡ contains s.databases k)
  destroy_tenant-initialize_tenant metadata engine s k h g n =
      let made = by_server lower format path_of config faults d metadata t engine s server in
      let s1 = (initialize metadata engine s).1 in
      let dropped = from_server lower format path_of config faults d t s1 server in
      let (safe, fine, created) = initialize_server-ok metadata engine s (rw (← made) h) in
      let s2 = (destroy s1).1 in
      let created' : s1.databases ≡ create_database d name s.databases =
        ap (λ r. r.1.databases) made ∙ created in
      let gone : s2.databases ≡ drop_database d name s1.databases =
        ap (λ r. r.1.databases) dropped ∙ destroy_server-ok s1 (ap (λ r. r.0) (sym dropped) ∙ g) in
      let known =
        λ (u : State). verify-contains lower format path_of config faults d t u server safe fine in
      let has = λ (j : Text).
        ap (λ ns. contains ns j) created' ∙ contains-create_database d name j s.databases server in
      let lacks = λ (j : Text).
        ap (λ ns. contains ns j) gone ∙ contains-drop_database d name j s1.databases server in
      (
        known s1 ∙ ground (arith, has name),
        known s2 ∙ ground (arith, lacks name),
        ground (arith, has k, n),
        ground (arith, has k, lacks k, n),
      )
