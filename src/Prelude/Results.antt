-- ===== src/Prelude/Results.antt =====
-- Code that changes a state and may raise. The state comes back beside the error too, since what
-- was written before a raise stays written until somebody rolls it back.
use mathlib.Core.Path.{◌≡◌, refl, sym, ◌∙◌, ap}
use mathlib.Core.Logic.{◌⊎◌, inl, inr}
use native.Mathlib.Omega.{arith}
use mathlib.Core.Bool.{Bool, true, false}
use mathlib.Core.Option.{Option, none, some}

pub data Result (E A : Type 0) : Type 0 where
  ok : A → Result E A
  err : E → Result E A

abbrev pub Exec : Type 0 → Type 0 → Type 0 → Type 0
Exec S E A = S → Result E A × S

module _ {S E A : Type 0} where
  abbrev pub pure : A → Exec S E A
  pure a s = (ok a, s)

  abbrev pub raise : E → Exec S E A
  raise e s = (err e, s)

  abbrev pub gets : (S → A) → Exec S E A
  gets f s = (ok (f s), s)

  -- A value that must be there.
  abbrev pub or_raise : Option A → E → Exec S E A
  or_raise none e = raise e
  or_raise (some a) e = pure a

module _ {S E : Type 0} where
  abbrev pub modify : (S → S) → Exec S E (Unit {0})
  modify f s = (ok tt, f s)

  abbrev pub raise_if : Bool → E → Exec S E (Unit {0})
  raise_if true e = raise e
  raise_if false e = pure tt

infixl 5 ◌>>=◌ ◌>>◌
abbrev pub ◌>>=◌ : {S E A B : Type 0} → Exec S E A → (A → Exec S E B) → Exec S E B
◌>>=◌ m f s = let (r, s') = m s in elim r [ ok a ↦ f a s' | err e ↦ (err e, s') ]

abbrev pub ◌>>◌ : {S E B : Type 0} → Exec S E (Unit {0}) → Exec S E B → Exec S E B
m >> k = m >>= λ _. k

module _ {S E A B : Type 0} (m : Exec S E A) (f : A → Exec S E B) (s : S) where
  -- A step whose outcome is known.
  pub >>=-ok : (a : A) (s' : S) → m s ≡ (ok a, s') → (m >>= f) s ≡ f a s'
  >>=-ok a s' h =
      ap
        (λ (t : Result E A × S). elim t.0 as (λ _. Result E B × S) [
          | ok a ↦ f a t.1
          | err e ↦ (err e, t.1)
        ])
        h

  pub >>=-err : (e : E) (s' : S) → m s ≡ (err e, s') → (m >>= f) s ≡ (err e, s')
  >>=-err e s' h =
      ap
        (λ (t : Result E A × S). elim t.0 as (λ _. Result E B × S) [
          | ok a ↦ f a t.1
          | err e ↦ (err e, t.1)
        ])
        h

module _ {S E A B : Type 0} (f : A → Exec S E B) (e : E) (s : S) where
  -- A value that is there, or not.
  pub or_raise-some : (o : Option A) (a : A) → o ≡ some a → (or_raise o e >>= f) s ≡ f a s
  or_raise-some o a h = ap (λ (o' : Option A). (or_raise o' e >>= f) s) h

  pub or_raise-none : (o : Option A) → o ≡ none → (or_raise o e >>= f) s ≡ (err e, s)
  or_raise-none o h = ap (λ (o' : Option A). (or_raise o' e >>= f) s) h

module _ {S E B : Type 0} (k : Exec S E B) (e : E) (s : S) where
  -- A guard that passes, or not.
  pub raise_if-false : (b : Bool) → b ≡ false → (raise_if b e >> k) s ≡ k s
  raise_if-false b h = ap (λ (b' : Bool). (raise_if b' e >> k) s) h

  pub raise_if-true : (b : Bool) → b ≡ true → (raise_if b e >> k) s ≡ (err e, s)
  raise_if-true b h = ap (λ (b' : Bool). (raise_if b' e >> k) s) h

pub Result-cases :
    {E A : Type 0} (r : Result E A) → ((a : A) × (r ≡ ok a)) ⊎ ((e : E) × (r ≡ err e))
Result-cases (ok a) = inl (a, refl)
Result-cases (err e) = inr (e, refl)

pub err_ne_ok : {E A : Type 0} (e : E) (a : A) (h : err e ≡ ok a) → ⊥
err_ne_ok e a h = ground arith

-- The values that a chain of two steps that succeeds passed through.
pub >>=-inv :
    {S E A B : Type 0} (m : Exec S E A) (f : A → Exec S E B) (s : S) (b : B)
    → ((m >>= f) s).0 ≡ ok b
    → (a : A) × ((m s).0 ≡ ok a) × ((m >>= f) s ≡ f a (m s).1)
>>=-inv {S} {E} {A} {B} m f s b h = elim (Result-cases (m s).0) [
  | inl (a, e) ↦ (a, e, >>=-ok m f s a (m s).1 (ap (λ (r : Result E A). (r, (m s).1)) e))
  | inr (e', e) ↦ absurd (
      err_ne_ok e' b (
        sym (
          ap (λ (t : Result E B × S). t.0)
            (>>=-err m f s e' (m s).1 (ap (λ (r : Result E A). (r, (m s).1)) e)))
        ∙ h))
]
