-- ===== src/Prelude/Texts.antt =====
-- Texts as lists of code points, with a decidable equality.
use Prim.Native.Char.{code}
use Prim.Native.Nat.{ℕ}
use Prim.Native.String.{String}
use mathlib.Core.Bool.{Bool, true, false, ◌&&◌, ◌||◌}
use mathlib.Core.Logic.{ite}
use mathlib.Core.List.{List, [], ◌∷◌}
use mathlib.Core.Path.{◌≡◌, refl, ap₂}
use fastapi_tenancy.Prelude.Tests.{◌==◌}
use native.Mathlib.Decide.{ℕ_discrete}

abbrev pub Text : Type 0
Text = List ℕ

-- The code points of a literal.
abbrev pub codes : String → Text
codes String.[] = []
codes (String.◌∷◌ c s) = code c ∷ codes s

heads : (c d : ℕ) (s t : Text) → Dec (c ≡ d) → Dec (s ≡ t) → Dec (c ∷ s ≡ d ∷ t)
heads c d s t (yes p) (yes q) = yes (ap₂ ◌∷◌ p q)
heads c d s t (yes p) (no q) = no (λ e. q (cc))
heads c d s t (no p) b = no (λ e. p (cc))

unfoldable pub text_dec : Discrete Text
unfolding heads ℕ_discrete
text_dec [] [] = yes refl
text_dec [] (d ∷ t) = no (λ e. cc)
text_dec (c ∷ s) [] = no (λ e. cc)
text_dec (c ∷ s) (d ∷ t) = heads c d s t (ℕ_discrete c d) (text_dec s t)

abbrev pub text_eq : Text → Text → Bool
text_eq s t = ite (text_dec s t) true false

-- s.startswith(p)
unfoldable pub starts_with : Text → Text → Bool
starts_with [] s = true
starts_with (c ∷ p) [] = false
starts_with (c ∷ p) (d ∷ s) = let rest = starts_with p s in c == d && rest

-- q in s
unfoldable pub is_infix : Text → Text → Bool
unfolding starts_with
is_infix q [] = starts_with q []
is_infix q (c ∷ s) = let rest = is_infix q s in starts_with q (c ∷ s) || rest

-- t in texts
unfoldable pub contains : List Text → Text → Bool
contains [] t = false
contains (s ∷ rest) t = ite (text_dec s t) true (contains rest t)
