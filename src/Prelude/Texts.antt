-- ===== src/Prelude/Texts.antt =====
-- Texts by clauses over their characters, so that they compute at a variable.
use Prim.Native.Nat.{ℕ, suc, ◌+◌}
use Prim.Native.String.{String, [], ◌∷◌}
use mathlib.Core.Path.{◌≡◌, refl, ap}
use native.Mathlib.Omega.{arith}

infixr 65 ◌<>◌
abbrev pub ◌<>◌ : String → String → String
[] <> t = t
(c ∷ s) <> t = c ∷ (s <> t)

abbrev pub text_length : String → ℕ
text_length [] = 0
text_length (c ∷ s) = suc (text_length s)

pub <>_assoc : (s t u : String) → (s <> t) <> u ≡ s <> (t <> u)
<>_assoc [] t u = refl
<>_assoc (c ∷ s) t u = ap (λ (r : String). c ∷ r) (<>_assoc s t u)

pub text_length-<> : (s t : String) → text_length (s <> t) ≡ text_length s + text_length t
text_length-<> [] t = omega arith
text_length-<> (c ∷ s) t = omega (arith, text_length-<> s t)
