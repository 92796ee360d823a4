-- ===== src/Prelude/Dict.antt =====
-- Python's dict with text keys, in insertion order: an assignment to a key that is there keeps its
-- place, a new key goes to the end.
use Prim.Native.Nat.{suc}
use fastapi_tenancy.Prelude.Lists.{length, length-append}
use fastapi_tenancy.Prelude.Tests.{Option-cases}
use mathlib.Core.Path.{◌≡◌, refl}
use mathlib.Core.Logic.{ite, inl, inr}
use mathlib.Core.Option.{Option, none, some}
use mathlib.Core.List.{List, [], ◌∷◌, ◌++◌, map}
use native.Mathlib.Omega.{arith}
use fastapi_tenancy.Prelude.Texts.{Text, text_dec}

abbrev pub Dict {ℓ} : Type ℓ → Type ℓ
Dict V = List (Text × V)

module _ {ℓ} {V : Type ℓ} where
  unfoldable pub get : Text → Dict V → Option V
  get k [] = none
  get k ((j, v) ∷ d) = ite (text_dec j k) (some v) (get k d)

  unfoldable pub put : Text → V → Dict V → Dict V
  put k v [] = (k, v) ∷ []
  put k v ((j, w) ∷ d) = ite (text_dec j k) ((k, v) ∷ d) ((j, w) ∷ put k v d)

  -- Drops every entry with the key; a dict has at most one.
  unfoldable pub del : Text → Dict V → Dict V
  del k [] = []
  del k ((j, v) ∷ d) = let rest = del k d in ite (text_dec j k) rest ((j, v) ∷ rest)

  abbrev pub values : Dict V → List V
  values = map (λ e. e.1)

  -- No key stands twice.
  abbrev pub IsDict : Dict V → Type ℓ
  IsDict [] = Unit
  IsDict ((k, v) ∷ d) = (get k d ≡ none) × IsDict d

  pub get-put :
      (j k : Text) (v : V) (d : Dict V) → get j (put k v d) ≡ ite (text_dec k j) (some v) (get j d)
  unfolding get put
  get-put j k v [] = refl
  get-put j k v ((i, w) ∷ d) = ground (arith, get-put j k v d)

  pub get-del : (j k : Text) (d : Dict V) → get j (del k d) ≡ ite (text_dec k j) none (get j d)
  unfolding get del
  get-del j k [] = ground arith
  get-del j k ((i, w) ∷ d) = ground (arith, get-del j k d)

  pub put-IsDict : (k : Text) (v : V) (d : Dict V) → IsDict d → IsDict (put k v d)
  unfolding get put
  put-IsDict k v [] h = (refl, tt)
  put-IsDict k v ((j, w) ∷ d) h = ground (arith, put-IsDict k v d, get-put j k v d)

  pub del-IsDict : (k : Text) (d : Dict V) → IsDict d → IsDict (del k d)
  unfolding get del
  del-IsDict k [] h = tt
  del-IsDict k ((j, w) ∷ d) h = ground (arith, del-IsDict k d, get-del j k d)

  pub length-put :
      (k : Text) (v : V) (d : Dict V)
      → length (put k v d) ≡ elim (get k d) [ none ↦ suc (length d) | some _ ↦ length d ]
  unfolding get put
  length-put k v [] = refl
  length-put k v ((j, w) ∷ d) = ground (arith, length-put k v d)

  pub del-absent : (k : Text) (d : Dict V) → get k d ≡ none → del k d ≡ d
  unfolding get del
  del-absent k [] h = refl
  del-absent k ((j, w) ∷ d) h = ground (arith, del-absent k d)

  pub length-del :
      (k : Text) (d : Dict V)
      → IsDict d
      → length d ≡ elim (get k d) [ none ↦ length (del k d) | some _ ↦ suc (length (del k d)) ]
  unfolding get del
  length-del k [] h = refl
  length-del k ((j, w) ∷ d) h = ground (arith, length-del k d, del-absent k d)

  -- OrderedDict.move_to_end, for a key that is there.
  unfoldable pub move_to_end : Text → Dict V → Dict V
  move_to_end k d = elim (get k d) [ none ↦ d | some v ↦ del k d ++ (k, v) ∷ [] ]

  get-append :
      (j : Text) (d e : Dict V)
      → get j (d ++ e) ≡ elim (get j d) [ none ↦ get j e | some v ↦ some v ]
  unfolding get
  get-append j [] e = refl
  get-append j ((i, w) ∷ d) e = ground (arith, get-append j d e)

  pub get-move_to_end : (j k : Text) (d : Dict V) → get j (move_to_end k d) ≡ get j d
  unfolding move_to_end get
  get-move_to_end j k d = elim (Option-cases (get k d)) [
    | inl e ↦ rw (e, move_to_end)
    | inr (v, e) ↦
        rw (e, move_to_end) (ground (arith, e, get-append j (del k d) ((k, v) ∷ []), get-del j k d))
  ]

  append-IsDict :
      (k : Text) (v : V) (d : Dict V) → IsDict d → get k d ≡ none → IsDict (d ++ (k, v) ∷ [])
  unfolding get
  append-IsDict k v [] h e = (refl, tt)
  append-IsDict k v ((j, w) ∷ d) h e =
      ground (arith, append-IsDict k v d, get-append j d ((k, v) ∷ []))

  pub move_to_end-IsDict : (k : Text) (d : Dict V) → IsDict d → IsDict (move_to_end k d)
  unfolding move_to_end
  move_to_end-IsDict k d h = elim (Option-cases (get k d)) [
    | inl e ↦ rw (e, move_to_end) h
    | inr (v, e) ↦
        rw (e, move_to_end)
          (append-IsDict k v (del k d) (del-IsDict k d h) (ground (arith, get-del k k d)))
  ]

  pub length-move_to_end : (k : Text) (d : Dict V) → IsDict d → length (move_to_end k d) ≡ length d
  unfolding move_to_end
  length-move_to_end k d h = elim (Option-cases (get k d)) [
    | inl e ↦ rw (e, move_to_end)
    | inr (v, e) ↦
        rw (e, move_to_end)
          (ground (arith, e, length-append (del k d) ((k, v) ∷ []), length-del k d h))
  ]
