-- ===== src/Realtime/Blind.antt =====
-- Steps compared under different deliveries of events (qorder_api/realtime/__init__.py).
use goi_mon.Prelude.{
  ◌≡◌, refl, sym, ap, Bool, true, false, Option, none, some, Result, ok, err, Exec, pure, gets,
  modify, or_raise, raise_if, ◌>>=◌,
}
use goi_mon.Model.{Db}
use goi_mon.Realtime.{World, on_db}

-- A step whose answer and whose writes depend on the database alone: not on the events that were
-- published before, nor on whether Redis takes new ones, nor on the clock that stamps them.
unfoldable pub IsBlind : {E A : Type 0} → Exec World E A → Type 0
IsBlind m = (w w' : World) → w.db ≡ w'.db → ((m w).0 ≡ (m w').0) × ((m w).1.db ≡ (m w').1.db)

module _ (E : Type 0) {A : Type 0} where
  pub pure-IsBlind : (a : A) → IsBlind {E = E} (pure a)
  unfolding IsBlind
  pure-IsBlind a w w' e = (refl, e)

  pub gets-IsBlind : (f : Db → A) → IsBlind {E = E} (gets (λ w. f w.db))
  unfolding IsBlind
  gets-IsBlind f w w' e = (ap (λ (d : Db). ok (f d)) e, e)

module _ {E A : Type 0} where
  pub or_raise-IsBlind : (o : Option A) (x : E) → IsBlind (or_raise o x)
  unfolding IsBlind
  or_raise-IsBlind none x w w' e = (refl, e)
  or_raise-IsBlind (some a) x w w' e = (refl, e)

  pub on_db-IsBlind : (m : Exec Db E A) → IsBlind (on_db m)
  unfolding IsBlind
  on_db-IsBlind m w w' e = (ap (λ (d : Db). (m d).0) e, ap (λ (d : Db). (m d).1) e)

module _ {E : Type 0} where
  pub raise_if-IsBlind : (b : Bool) (x : E) → IsBlind (raise_if b x)
  unfolding IsBlind
  raise_if-IsBlind true x w w' e = (refl, e)
  raise_if-IsBlind false x w w' e = (refl, e)

-- A write to the database.
pub modify-IsBlind :
    (E : Type 0) (f : Db → Db) → IsBlind {E = E} (modify (λ w. record w { db = f w.db }))
unfolding IsBlind
modify-IsBlind E f w w' e = (refl, ap f e)

module _ {E A B : Type 0} (f : A → Exec World E B) (g : (a : A) → IsBlind (f a)) where
  after :
      (r r' : Result E A) (w w' : World)
      → r ≡ r'
      → w.db ≡ w'.db
      → ((((λ (_ : World). (r, w)) >>= f) w).0 ≡ (((λ (_ : World). (r', w')) >>= f) w').0)
        × ((((λ (_ : World). (r, w)) >>= f) w).1.db ≡ (((λ (_ : World). (r', w')) >>= f) w').1.db)
  unfolding IsBlind
  after (ok a) r' w w' h e = rw (sym h) (g a w w' e)
  after (err x) r' w w' h e = rw (sym h) (refl, e)

  pub >>=-IsBlind : (m : Exec World E A) → IsBlind m → IsBlind (m >>= f)
  unfolding IsBlind
  >>=-IsBlind m b w w' e =
      let (answers, dbs) = b w w' e in after (m w).0 (m w').0 (m w).1 (m w').1 answers dbs
