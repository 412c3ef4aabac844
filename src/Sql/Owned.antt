-- ===== src/Sql/Owned.antt =====
-- The row of a given key that passes a test besides, as a tenant looks up rows of its own.
use goi_mon.Prelude.{
  ℕ, ◌==◌, Bool, true, false, ◌&&◌, some, List, [], ◌∷◌, ◌≡◌, ◌≢◌, refl, sym, ◌∙◌, ap, subst, arith,
  if◌then◌else◌, All, All-map, Bool-cases, inl, inr, ◌++◌,
}
use goi_mon.Sql.{select, update, first}
use goi_mon.Sql.Keyed.{IsKeyed, find, first-select, kept-some, find-key}

module _ {A : Type 0} (key : A → ℕ) where
  -- A row found so is the row of its key, and passes the test.
  pub own-find :
      (i : ℕ) (q : A → Bool) (xs : List A) (x : A)
      → IsKeyed key xs
      → first (select (λ y. key y == i && q y) xs) ≡ some x
      → (find key i xs ≡ some x) × (key x ≡ i) × (q x ≡ true)
  own-find i q xs x keyed found =
      let (there, passes) =
        kept-some key q (find key i xs) x (sym (first-select key i q xs keyed) ∙ found) in
      (there, find-key key i xs x there, passes)

  -- The rewritten row is found in the rewritten table.
  pub find-rewritten :
      (i : ℕ) (f : A → A) (xs : List A) (x : A)
      → ((y : A) → key (f y) ≡ key y)
      → find key i xs ≡ some x
      → find key i (update (λ y. key y == i) f xs) ≡ some (f x)
  unfolding find update
  find-rewritten i f [] x same here = cc
  find-rewritten i f (y ∷ ys) x same here = ground (arith, same y, find-rewritten i f ys x same)

  -- The other rows are as they were.
  pub find-spared :
      (i j : ℕ) (f : A → A) (xs : List A)
      → ((y : A) → key (f y) ≡ key y)
      → j ≢ i
      → find key j (update (λ y. key y == i) f xs) ≡ find key j xs
  unfolding find update
  find-spared i j f [] same ne = refl
  find-spared i j f (y ∷ ys) same ne = ground (arith, same y, find-spared i j f ys same ne)

  update-absent :
      (i : ℕ) (f : A → A) (xs : List A)
      → All (λ y. key y ≢ i) xs
      → update (λ y. key y == i) f xs ≡ xs
  unfolding update
  update-absent i f [] h = refl
  update-absent i f (y ∷ ys) (n, h) = ground (arith, update-absent i f ys h)

  -- A selection that passes over the row of a key, before and after it is rewritten, is the same.
  pub select-rewritten :
      (i : ℕ) (q : A → Bool) (f : A → A) (xs : List A) (x : A)
      → IsKeyed key xs
      → find key i xs ≡ some x
      → q x ≡ false
      → q (f x) ≡ false
      → select q (update (λ y. key y == i) f xs) ≡ select q xs
  unfolding select update find
  select-rewritten i q f [] x keyed here before after = cc
  select-rewritten i q f (y ∷ ys) x (n, keyed) here before after = elim (Bool-cases (key y == i)) [
    | inl e ↦
        let same : y ≡ x = ground arith in
        rw e (
          subst
            (λ (z : A).
              (if q (f z)
                then f z ∷ select q (update (λ y'. key y' == i) f ys)
                else select q (update (λ y'. key y' == i) f ys))
              ≡ (if q z then z ∷ select q ys else select q ys))
            (sym same)
            (rw (before, after)
              (ap (select q) (
                update-absent i f ys
                  (All-map (λ z. key z ≢ key y) (λ z. key z ≢ i) ys (λ z k. ground arith) n)))))
    | inr e ↦ ground (arith, select-rewritten i q f ys x keyed)
  ]

module _ {A : Type 0} where
  pub select-append_none :
      (q : A → Bool) (x : A) (xs : List A) → q x ≡ false → select q (xs ++ x ∷ []) ≡ select q xs
  unfolding select
  select-append_none q x [] h = ground arith
  select-append_none q x (y ∷ ys) h = ground (arith, select-append_none q x ys)
