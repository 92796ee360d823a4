-- ===== src/Isolation/Schema/Quoting.antt =====
-- isolation/schema.py: the statements that are built from the name of a schema.
use fastapi_tenancy.Prelude.{
  ℕ, ◌+◌, ◌≡◌, refl, sym, ◌∙◌, Text, codes, List, [], ◌∷◌, ◌++◌, Option, none, some, Bool, true,
  false, ◌||◌, ◌==◌, all, arith, if◌then◌else◌, inl, inr, Bool-cases,
}
use fastapi_tenancy.Core.Types.{Tenant}
use fastapi_tenancy.Core.Exceptions.{ok, bind-ok, Result-cases}
use fastapi_tenancy.Core.Config.{TenancyConfig}
use fastapi_tenancy.Utils.Chars.{is_word, is_lower, is_digit, is_alnum, newline}
use fastapi_tenancy.Utils.Validation.{validate_schema_name}
use fastapi_tenancy.Utils.Validation.Grammar.{chomp, is_safe_name, validate_schema_name-eq}
use fastapi_tenancy.Isolation.Schema.{
  Table, Action, executed, cleaned_up, Database, Run, attempt, schema_name, validated_schema_name,
  quoted, set_path_sql, create_schema_sql, drop_schema_sql, or_clean_up, schema_actions,
  initialize_schema, with_schema,
}
use fastapi_tenancy.Isolation.Schema.Provisioning.{initialize_tenant, destroy_tenant, or_isolation}
use fastapi_tenancy.Utils.DbCompat.{postgresql}

-- The characters that a name may have.
abbrev pub plain : ℕ → Bool
plain c = is_word c || c == newline

-- How many double quotes a text has.
unfoldable pub quotes : Text → ℕ
quotes [] = 0
quotes (c ∷ s) = let rest = quotes s in if c == b'"' then rest + 1 else rest

quotes-append : (s t : Text) → quotes (s ++ t) ≡ quotes s + quotes t
unfolding quotes
quotes-append [] t = omega arith
quotes-append (c ∷ s) t = ground (arith, quotes-append s t)

quotes-plain : (s : Text) → all plain s ≡ true → quotes s ≡ 0
unfolding quotes is_word is_alnum is_lower is_digit
quotes-plain [] h = refl
quotes-plain (c ∷ s) h = ground (arith, quotes-plain s)

quoted-quotes : (s : Text) → all plain s ≡ true → quotes (quoted s) ≡ 2
unfolding quotes quoted
quoted-quotes s h = ground (arith, quotes-append s (codes "\""), quotes-plain s h)

word-plain : (s : Text) → all is_word s ≡ true → all plain s ≡ true
word-plain [] h = refl
word-plain (c ∷ s) h = ground (arith, word-plain s)

chomp-plain : (s : Text) → all is_word (chomp s) ≡ true → all plain s ≡ true
unfolding chomp
chomp-plain [] h = refl
chomp-plain (c ∷ []) h = ground arith
chomp-plain (c ∷ d ∷ s) h = ground (arith, chomp-plain (d ∷ s))

lower-word : (c : ℕ) → (is_lower c || c == b'_') ≡ true → is_word c ≡ true
unfolding is_word is_alnum
lower-word c h = ground arith

safe-word : (s : Text) → is_safe_name s ≡ true → all is_word s ≡ true
unfolding is_safe_name
safe-word [] h = refl
safe-word (c ∷ s) h = ground (arith, lower-word c)

valid-plain : (s : Text) → validate_schema_name s ≡ true → all plain s ≡ true
valid-plain s h = chomp-plain s (safe-word (chomp s) (sym (validate_schema_name-eq s) ∙ h))

validated-plain :
    (config : TenancyConfig) (t : Tenant) (name : Text)
    → validated_schema_name config t ≡ ok name
    → all plain name ≡ true
unfolding validated_schema_name
validated-plain config t name h =
    let (n, first, rest) = bind-ok (schema_name config t) _ h in
    elim (Bool-cases (validate_schema_name n)) [
      | inl e ↦ ground (arith, rest, e, valid-plain n e)
      | inr e ↦ ground (arith, rest, e)
    ]

-- Where a statement was built from a name, it has two double quotes, those around the name.
abbrev pub IsQuoted : Action → Type 0
IsQuoted (executed s) = quotes s ≡ 2
IsQuoted (cleaned_up s) = quotes s ≡ 2
IsQuoted a = Unit

abbrev pub AllQuoted : List Action → Type 0
AllQuoted [] = Unit
AllQuoted (a ∷ rest) = IsQuoted a × AllQuoted rest

append-AllQuoted :
    (acts more : List Action) → AllQuoted acts → AllQuoted more → AllQuoted (acts ++ more)
append-AllQuoted [] more h k = k
append-AllQuoted (a ∷ acts) more h k = (h.0, append-AllQuoted acts more h.1 k)

attempt-AllQuoted :
    (db : Database) (acts : List Action) → AllQuoted acts → AllQuoted (attempt db acts).1
unfolding attempt
attempt-AllQuoted db [] h = tt
attempt-AllQuoted db (a ∷ acts) h = elim (Bool-cases (db.succeeds a)) [
  | inl e ↦ rw (e, attempt) (h.0, attempt-AllQuoted db acts h.1)
  | inr e ↦ rw (e, attempt) (h.0, tt)
]

or_clean_up-AllQuoted :
    (drop_sql : Text) (r : Bool × List Action)
    → quotes drop_sql ≡ 2
    → AllQuoted r.1
    → AllQuoted (or_clean_up drop_sql r).1
unfolding or_clean_up
or_clean_up-AllQuoted drop_sql (true, tried) h k = k
or_clean_up-AllQuoted drop_sql (false, tried) h k = append-AllQuoted tried _ k (h, tt)

module _ (schema : Text) (h : all plain schema ≡ true) where
  create-quotes : quotes (create_schema_sql schema) ≡ 2
  unfolding quotes create_schema_sql
  create-quotes = ground (arith, quoted-quotes schema h)

  set_path-quotes : quotes (set_path_sql schema) ≡ 2
  unfolding quotes set_path_sql
  set_path-quotes =
      ground (arith, quoted-quotes schema h, quotes-append (quoted schema) (codes ", public"))

  drop-quotes : quotes (drop_schema_sql schema) ≡ 2
  unfolding quotes drop_schema_sql
  drop-quotes =
      ground (arith, quoted-quotes schema h, quotes-append (quoted schema) (codes " CASCADE"))

  schema_actions-AllQuoted :
      (metadata : Option (List Table)) → AllQuoted (schema_actions schema metadata)
  schema_actions-AllQuoted none = (create-quotes, tt)
  schema_actions-AllQuoted (some tables) = (create-quotes, (set_path-quotes, (tt, tt)))

initialize_schema-AllQuoted :
    (db : Database) (schema : Text) (metadata : Option (List Table))
    → all plain schema ≡ true
    → AllQuoted (initialize_schema db schema metadata).1
unfolding initialize_schema
initialize_schema-AllQuoted db schema metadata h =
    or_clean_up-AllQuoted (drop_schema_sql schema) (attempt db (schema_actions schema metadata))
      (drop-quotes schema h)
      (attempt-AllQuoted db (schema_actions schema metadata)
        (schema_actions-AllQuoted schema h metadata))

or_isolation-tried : (r : Bool × List Action) → (or_isolation r).1 ≡ r.1
or_isolation-tried (true, tried) = refl
or_isolation-tried (false, tried) = refl

with_schema-AllQuoted :
    (config : TenancyConfig) (t : Tenant) (run : Text → Run)
    → ((schema : Text) → all plain schema ≡ true → AllQuoted (run schema).1)
    → AllQuoted (with_schema (validated_schema_name config t) run).1
with_schema-AllQuoted config t run h = elim (Result-cases (validated_schema_name config t)) [
  | inl (schema, e) ↦ rw e (h schema (validated-plain config t schema e))
  | inr (x, e) ↦ rw e tt
]

-- Whatever schema name a tenant brings, whatever statements succeed: each statement that PostgreSQL
-- is sent to set a tenant up, to clean up after a failure or to remove a tenant has two double
-- quotes, those that the program puts around the name, so that the name cannot end the quotation.
-- The statements of create_all, which SQLAlchemy writes, are not counted.
pub tenant-AllQuoted :
    (lower : Text → Text) (delegate : Run) (db : Database) (config : TenancyConfig) (t : Tenant)
    (metadata : Option (List Table))
    → AllQuoted (initialize_tenant lower delegate db postgresql config t metadata).1
      × AllQuoted (destroy_tenant lower delegate db postgresql config t).1
unfolding initialize_tenant destroy_tenant
tenant-AllQuoted lower delegate db config t metadata = (
  with_schema-AllQuoted config t (λ schema. initialize_schema db schema metadata)
      (λ schema h. initialize_schema-AllQuoted db schema metadata h),
  with_schema-AllQuoted config t
      (λ schema. or_isolation (attempt db (executed (drop_schema_sql schema) ∷ [])))
      (λ schema h.
        rw (or_isolation-tried (attempt db (executed (drop_schema_sql schema) ∷ []))) (
          attempt-AllQuoted db (executed (drop_schema_sql schema) ∷ [])
            (drop-quotes schema h, tt))),
)
