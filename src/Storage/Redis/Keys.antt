-- ===== src/Storage/Redis/Keys.antt =====
-- storage/redis.py: the keys of the two kinds of entry.
use fastapi_tenancy.Prelude.{
  ◌≡◌, ◌≢◌, ◌⊎◌, inl, inr, arith, some, text_dec, sym, ap, ◌∙◌, Text, codes, ◌++◌, length, drop,
  drop-append,
}
use fastapi_tenancy.Prelude.Dict.{Dict, get, put, del, get-put, get-del}
use fastapi_tenancy.Storage.Redis.{id_key, slug_key}

-- What two assignments of one value leave under a key.
pub put-put-cases :
    {V : Type 0} (key j k : Text) (v w : V) (d : Dict V)
    → get key (put j v (put k v d)) ≡ some w
    → (((key ≡ k) ⊎ (key ≡ j)) × (w ≡ v)) ⊎ (get key d ≡ some w)
put-put-cases key j k v w d h =
    let outer = get-put key j v (put k v d) in
    let inner = get-put key k v d in
    elim (text_dec j key) [
      | yes e ↦ inl (inr (sym e), ground (arith, outer, h))
      | no n ↦ elim (text_dec k key) [
        | yes e ↦ inl (inl (sym e), ground (arith, outer, inner, h))
        | no m ↦ inr (ground (arith, outer, inner, h))
      ]
    ]

-- What two deletions leave.
pub del-del-some :
    {V : Type 0} (key j k : Text) (w : V) (d : Dict V)
    → get key (del j (del k d)) ≡ some w
    → (key ≢ j) × (key ≢ k) × (get key d ≡ some w)
del-del-some key j k w d h =
    let outer = get-del key j (del k d) in
    let inner = get-del key k d in
    elim (text_dec j key) [
      | yes e ↦ ground (arith, outer, h)
      | no n ↦ elim (text_dec k key) [
        | yes e ↦ ground (arith, outer, inner, h)
        | no m ↦ (λ e. n (sym e), λ e. m (sym e), ground (arith, outer, inner, h))
      ]
    ]

append_cancel : (p s t : Text) → p ++ s ≡ p ++ t → s ≡ t
append_cancel p s t e = sym (drop-append p s) ∙ ap (drop (length p)) e ∙ drop-append p t

pub id_key_injective : (p s t : Text) → id_key p s ≡ id_key p t → s ≡ t
unfolding id_key
id_key_injective p s t e =
    append_cancel (codes ":id:") s t (append_cancel p (codes ":id:" ++ s) (codes ":id:" ++ t) e)

pub slug_key_injective : (p s t : Text) → slug_key p s ≡ slug_key p t → s ≡ t
unfolding slug_key
slug_key_injective p s t e =
    append_cancel (codes ":identifier:") s t
      (append_cancel p (codes ":identifier:" ++ s) (codes ":identifier:" ++ t) e)

-- No key is of both kinds, whatever the id and the identifier.
pub id_key_ne_slug_key : (p s t : Text) → id_key p s ≢ slug_key p t
unfolding id_key slug_key
id_key_ne_slug_key p s t = λ e.
    let tails = append_cancel p (codes ":id:" ++ s) (codes ":identifier:" ++ t) e in
    ground (arith, tails)
