-- ===== src/Storage/Sql/Stored.antt =====
-- storage/database.py: the SQL store as a TenantStore, and the contract.
use fastapi_tenancy.Prelude.{
  ℕ, ◌≡◌, refl, sym, ap, ◌∙◌, Text, text_dec, Option, none, some, ite, inl, inr, Option-cases,
}
use mathlib.Core.Path.{subst}
use fastapi_tenancy.Prelude.Dict.{Dict, get}
use fastapi_tenancy.Core.Types.{Tenant, TenantStatus}
use fastapi_tenancy.Core.Exceptions.{Result, ok, raise, Error, tenant_not_found}
use fastapi_tenancy.Storage.Contract.{TenantStore, IsReliable, Same, found, restamped}
use fastapi_tenancy.Storage.Memory as Store
use fastapi_tenancy.Storage.Memory.{MemoryStore}
use fastapi_tenancy.Storage.Memory.Stored as Stored
use fastapi_tenancy.Storage.Memory.Consistent.{
  IsConsistent, create-IsConsistent, delete-IsConsistent, set_status-IsConsistent,
}
use fastapi_tenancy.Storage.Sql.{
  Codec, TenantModel, to_domain, get_by_id, create, delete, set_status,
}
use fastapi_tenancy.Storage.Sql.Rows.{Loads, table, get-table, to_domain-of_domain}
use fastapi_tenancy.Storage.Sql.Alike.{
  tabled, get_by_id_alike, create_alike, delete_alike, set_status_alike,
}

module _ {B : Type 0} (c : Codec B) where
  abbrev pub sql : TenantStore (Dict (TenantModel B))
  sql = record {
    get_by_id = λ k rows. (get_by_id c k rows, rows);
    create = create c;
    delete = delete;
    set_status = set_status c;
  }

  abbrev pub read_result : Result Tenant → Option Tenant
  read_result (ok t) = some t
  read_result (raise e) = none

  abbrev pub read : Option (TenantModel B) → Option Tenant
  read none = none
  read (some m) = read_result (to_domain c m)

  abbrev pub view : Dict (TenantModel B) → Text → Option Tenant
  view rows k = read (get k rows)

  -- The rows are those of a consistent in-memory store.
  abbrev pub IsTable : Dict (TenantModel B) → Type 0
  IsTable rows = (s : MemoryStore) × (rows ≡ table c s.tenants) × IsConsistent s

  module _ (loads : Loads c) where
    view-table : (d : Dict Tenant) (k : Text) → view (table c d) k ≡ get k d
    view-table d k = elim (Option-cases (get k d)) [
      | inl e ↦ rw (get-table c k d, e) refl
      | inr (t, e) ↦ rw (get-table c k d, e) (ap read_result (to_domain-of_domain c t loads))
    ]

    -- The view after a call that does to the rows what a call does to an in-memory store.
    view-tabled :
        {A : Type 0} (outcome : Result A × Dict (TenantModel B)) (o : Result A × MemoryStore)
        (j : Text)
        → outcome ≡ tabled c o
        → view outcome.1 j ≡ get j o.1.tenants
    view-tabled outcome o j e = ap (λ x. view x.1 j) e ∙ view-table o.1.tenants j

    module _ (s : MemoryStore) (v : IsConsistent s) where
      abbrev rows : Dict (TenantModel B)
      rows = table c s.tenants

      pub get_by_id-found : (k : Text) → get_by_id c k rows ≡ found k (view rows k)
      get_by_id-found k =
          get_by_id_alike c loads k s
          ∙ Stored.get_by_id-found k s
          ∙ ap (found k) (sym (view-table s.tenants k))

      pub create-ok :
          (t u : Tenant)
          → (create c t rows).0 ≡ ok u
          → (u ≡ t)
            × (view rows t.id ≡ none)
            × ((j : Text)
                → view (create c t rows).1 j ≡ ite (text_dec t.id j) (some t) (view rows j))
      create-ok t u h =
          let same = create_alike c loads t s v in
          let (a, b, f) = Stored.create-ok t u s (ap (λ o. o.0) (sym same) ∙ h) in
          (
            a,
            view-table s.tenants t.id ∙ b,
            λ j.
                view-tabled _ (Store.create t s) j same
                ∙ f j
                ∙ ap (λ x. ite (text_dec t.id j) (some t) x) (sym (view-table s.tenants j)),
          )

      pub create-raise :
          (t : Tenant) (e : Error)
          → (create c t rows).0 ≡ raise e
          → Same (view (create c t rows).1) (view rows)
      create-raise t e h j =
          let same = create_alike c loads t s v in
          view-tabled _ (Store.create t s) j same
          ∙ Stored.create-raise t s e (ap (λ o. o.0) (sym same) ∙ h) j
          ∙ sym (view-table s.tenants j)

      pub delete-ok :
          (k : Text) (t : Tenant)
          → view rows k ≡ some t
          → ((delete k rows).0 ≡ ok tt)
            × ((j : Text) → view (delete k rows).1 j ≡ ite (text_dec k j) none (view rows j))
      delete-ok k t h =
          let same = delete_alike c loads k s v in
          let (a, f) = Stored.delete-ok k s t v (sym (view-table s.tenants k) ∙ h) in
          (
            ap (λ o. o.0) same ∙ a,
            λ j.
                view-tabled _ (Store.delete k s) j same
                ∙ f j
                ∙ ap (λ x. ite (text_dec k j) none x) (sym (view-table s.tenants j)),
          )

      pub set_status-ok :
          (now : ℕ) (k : Text) (st : TenantStatus) (t : Tenant)
          → view rows k ≡ some t
          → ((set_status c now k st rows).0 ≡ ok (restamped now st t))
            × ((j : Text)
                → view (set_status c now k st rows).1 j
                  ≡ ite (text_dec k j) (some (restamped now st t)) (view rows j))
      set_status-ok now k st t h =
          let same = set_status_alike c loads now k st s in
          let (a, f) = Stored.set_status-ok now k st s t (sym (view-table s.tenants k) ∙ h) in
          (
            ap (λ o. o.0) same ∙ a,
            λ j.
                view-tabled _ (Store.set_status now k st s) j same
                ∙ f j
                ∙ ap (λ x. ite (text_dec k j) (some (restamped now st t)) x)
                    (sym (view-table s.tenants j)),
          )

      pub set_status-raise :
          (now : ℕ) (k : Text) (st : TenantStatus)
          → view rows k ≡ none
          → ((set_status c now k st rows).0 ≡ raise (tenant_not_found (some k)))
            × Same (view (set_status c now k st rows).1) (view rows)
      set_status-raise now k st h =
          let same = set_status_alike c loads now k st s in
          let (a, f) = Stored.set_status-raise now k st s (sym (view-table s.tenants k) ∙ h) in
          (
            ap (λ o. o.0) same ∙ a,
            λ j.
                view-tabled _ (Store.set_status now k st s) j same
                ∙ f j
                ∙ sym (view-table s.tenants j),
          )

    -- What holds of the rows of a consistent store holds of all that are such rows.
    abbrev at_table {κ} :
        (P : Dict (TenantModel B) → Type κ)
        → ((s : MemoryStore) → IsConsistent s → P (table c s.tenants))
        → (r : Dict (TenantModel B)) → IsTable r
        → P r
    at_table P h r (s, e, v) = subst P (sym e) (h s v)

    abbrev pub sql-IsReliable : IsReliable sql
    sql-IsReliable = record {
      IsValid = IsTable;
      view = view;
      get_by_id-found =
          λ k. at_table (λ r. get_by_id c k r ≡ found k (view r k)) (λ s v. get_by_id-found s v k);
      get_by_id-keeps = λ k r v. (v, λ j. refl);
      create-IsValid = λ t.
          at_table (λ r. IsTable (create c t r).1)
            (λ s v. (
              (Store.create t s).1,
              ap (λ o. o.1) (create_alike c loads t s v),
              create-IsConsistent t v,
            ));
      create-ok = λ t u r v.
          at_table
            (λ r.
              (create c t r).0 ≡ ok u
              → (u ≡ t)
                × (view r t.id ≡ none)
                × ((j : Text)
                    → view (create c t r).1 j ≡ ite (text_dec t.id j) (some t) (view r j)))
            (λ s w. create-ok s w t u) r v;
      create-raise = λ t r e v.
          at_table (λ r. (create c t r).0 ≡ raise e → Same (view (create c t r).1) (view r))
            (λ s w. create-raise s w t e) r v;
      delete-IsValid = λ k.
          at_table (λ r. IsTable (delete k r).1)
            (λ s v. (
              (Store.delete k s).1,
              ap (λ o. o.1) (delete_alike c loads k s v),
              delete-IsConsistent k v,
            ));
      delete-ok = λ k r t v.
          at_table
            (λ r.
              view r k ≡ some t
              → ((delete k r).0 ≡ ok tt)
                × ((j : Text) → view (delete k r).1 j ≡ ite (text_dec k j) none (view r j)))
            (λ s w. delete-ok s w k t) r v;
      set_status-IsValid = λ now k st.
          at_table (λ r. IsTable (set_status c now k st r).1)
            (λ s v. (
              (Store.set_status now k st s).1,
              ap (λ o. o.1) (set_status_alike c loads now k st s),
              set_status-IsConsistent now k st v,
            ));
      set_status-ok = λ now k st r t v.
          at_table
            (λ r.
              view r k ≡ some t
              → ((set_status c now k st r).0 ≡ ok (restamped now st t))
                × ((j : Text)
                    → view (set_status c now k st r).1 j
                      ≡ ite (text_dec k j) (some (restamped now st t)) (view r j)))
            (λ s w. set_status-ok s w now k st t) r v;
      set_status-raise = λ now k st r v.
          at_table
            (λ r.
              view r k ≡ none
              → ((set_status c now k st r).0 ≡ raise (tenant_not_found (some k)))
                × Same (view (set_status c now k st r).1) (view r))
            (λ s w. set_status-raise s w now k st) r v;
    }
