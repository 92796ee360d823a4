-- ===== src/Isolation/Session.antt =====
-- isolation/*.py: a block of the caller's code in a session that get_session yields. A connection has
-- one setting for the length of a transaction, the search path or the tenant of a row filter,
-- that the server forgets at the end of the transaction; a block is what it does to the session and
-- how it ends. After the end of a transaction a session may go on with another connection object.
use fastapi_tenancy.Prelude.{ℕ, Text, List, [], ◌∷◌, Option, none, Bool, true, false, ◌≡◌, refl}
use fastapi_tenancy.Core.Exceptions.{Result, ok, raise, Error, isolation}

-- A transaction begins on a connection object, a statement runs, the transaction ends.
pub data Event : Type 0 where
  begun : ℕ → Event
  ran : Event
  ended : Event

pub record Block (A : Type 0) : Type 0 where
  pub events : List Event
  pub result : Result A

-- What the caller gets, the setting that each statement of the block meets, and whether the session
-- was rolled back.
pub record Served (A : Type 0) : Type 0 where
  pub result : Result A
  pub settings : List (Option Text)
  pub rolled_back : Bool

-- `listener` is what a listener sets as a transaction begins on a connection object.
unfoldable pub settings_of : (ℕ → Option Text) → Option Text → List Event → List (Option Text)
settings_of listener now [] = []
settings_of listener now (begun c ∷ es) = settings_of listener (listener c) es
settings_of listener now (ran ∷ es) = now ∷ settings_of listener now es
settings_of listener now (ended ∷ es) = settings_of listener none es

-- except IsolationError: raise; except Exception: rollback, and an IsolationError from it.
unfoldable pub rolled_back_by : Error → Bool
rolled_back_by isolation = false
rolled_back_by e = true

unfoldable pub or_isolation : {A : Type 0} → Result A → Result A
or_isolation (ok a) = ok a
or_isolation (raise e) = raise isolation

unfoldable pub served : {A : Type 0} → List (Option Text) → Block A → Served A
unfolding rolled_back_by or_isolation
served settings b = record {
  result = or_isolation b.result;
  settings = settings;
  rolled_back = elim b.result [ ok a ↦ false | raise e ↦ rolled_back_by e ];
}

-- No session is yielded.
abbrev pub refused : {A : Type 0} → Error → Bool → Served A
refused e rolled_back = record { result = raise e; settings = []; rolled_back = rolled_back }

-- Statements run within transactions, from a point within one or not: a session begins one before the
-- first statement.
abbrev pub Within : Bool → List Event → Type 0
Within now [] = Unit
Within now (begun c ∷ es) = Within true es
Within now (ran ∷ es) = (now ≡ true) × Within now es
Within now (ended ∷ es) = Within false es

-- Every statement meets the setting.
abbrev pub AllMeet : Option Text → List (Option Text) → Type 0
AllMeet s [] = Unit
AllMeet s (x ∷ xs) = (x ≡ s) × AllMeet s xs

pub settings_of-AllMeet :
    (s : Option Text) (now : Option Text) (inside : Bool) (es : List Event)
    → (inside ≡ true → now ≡ s)
    → Within inside es
    → AllMeet s (settings_of (λ c. s) now es)
unfolding settings_of
settings_of-AllMeet s now inside [] h w = tt
settings_of-AllMeet s now inside (begun c ∷ es) h w = settings_of-AllMeet s s true es (λ e. refl) w
settings_of-AllMeet s now inside (ran ∷ es) h w = (h w.0, settings_of-AllMeet s now inside es h w.1)
settings_of-AllMeet s now inside (ended ∷ es) h w = settings_of-AllMeet s none false es (λ e. cc) w

-- The connection object of each statement, from one on.
unfoldable pub connections_of : ℕ → List Event → List ℕ
connections_of now [] = []
connections_of now (begun c ∷ es) = connections_of c es
connections_of now (ran ∷ es) = now ∷ connections_of now es
connections_of now (ended ∷ es) = connections_of now es
