-- ===== src/Sql/Keyed.antt =====
-- Tables with a primary key.
use goi_mon.Prelude.{
  ◌++◌, All-append, length, ◌≤◌, ◌+◌, subst, sym, ap, ◌∙◌, eq_of_==, ==_refl, All-map, ℕ, Bool,
  true, false, ◌&&◌, Option, none, some, List, [], ◌∷◌, ◌≡◌, ◌≢◌, refl, inl, inr, arith,
  if◌then◌else◌, All, ◌==◌, Bool-cases,
}
use goi_mon.Sql.{select, update, first}

module _ {A : Type 0} (key : A → ℕ) where
  -- SELECT * FROM rows WHERE id = i
  unfoldable pub find : ℕ → List A → Option A
  find i [] = none
  find i (x ∷ xs) = let rest = find i xs in if key x == i then some x else rest

  -- No two rows have one key.
  abbrev pub IsKeyed : List A → Type 0
  IsKeyed [] = Unit
  IsKeyed (x ∷ xs) = All (λ y. key y ≢ key x) xs × IsKeyed xs

  abbrev pub rewrite_row : (A → Bool) → (A → A) → A → A
  rewrite_row p f x = if p x then f x else x

  abbrev pub map_found : (A → A) → Option A → Option A
  map_found f none = none
  map_found f (some x) = some (f x)

  pub find-update :
      (i : ℕ) (p : A → Bool) (f : A → A) (xs : List A)
      → ((x : A) → key (f x) ≡ key x)
      → find i (update p f xs) ≡ map_found (rewrite_row p f) (find i xs)
  unfolding find update
  find-update i p f [] h = refl
  find-update i p f (x ∷ xs) h = ground (arith, h x, find-update i p f xs h)

  abbrev pub kept : (A → Bool) → Option A → Option A
  kept q none = none
  kept q (some x) = if q x then some x else none

  select-absent :
      (i : ℕ) (q : A → Bool) (xs : List A)
      → All (λ y. key y ≢ i) xs
      → select (λ x. key x == i && q x) xs ≡ []
  unfolding select
  select-absent i q [] h = refl
  select-absent i q (x ∷ xs) (n, h) = ground (arith, select-absent i q xs h)

  -- On a keyed table the rows with a given key are the one that `find` finds, if any.
  pub first-select :
      (i : ℕ) (q : A → Bool) (xs : List A)
      → IsKeyed xs
      → first (select (λ x. key x == i && q x) xs) ≡ kept q (find i xs)
  unfolding select find first
  first-select i q [] h = refl
  first-select i q (x ∷ xs) (n, h) =
      ground (arith, select-absent (key x) q xs n, first-select i q xs h)

  -- An update that keeps the keys keeps the table keyed.
  pub update-All-ne :
      (k : ℕ) (p : A → Bool) (f : A → A) (xs : List A)
      → ((x : A) → key (f x) ≡ key x)
      → All (λ y. key y ≢ k) xs
      → All (λ y. key y ≢ k) (update p f xs)
  unfolding update
  update-All-ne k p f [] h a = tt
  update-All-ne k p f (x ∷ xs) h (n, a) = ground (arith, h x, update-All-ne k p f xs h a)

  pub update-IsKeyed :
      (p : A → Bool) (f : A → A) (xs : List A)
      → ((x : A) → key (f x) ≡ key x)
      → IsKeyed xs
      → IsKeyed (update p f xs)
  unfolding update
  update-IsKeyed p f [] h k = tt
  update-IsKeyed p f (x ∷ xs) h (n, k) = elim (Bool-cases (p x)) [
    | inl e ↦ rw (e, h) (update-All-ne (key x) p f xs h n, update-IsKeyed p f xs h k)
    | inr e ↦ rw e (update-All-ne (key x) p f xs h n, update-IsKeyed p f xs h k)
  ]

  -- The row that is found has the key that was asked for.
  pub find-key : (i : ℕ) (xs : List A) (x : A) → find i xs ≡ some x → key x ≡ i
  unfolding find
  find-key i [] x e = cc
  find-key i (y ∷ xs) x e = ground (arith, find-key i xs x)

  -- An update of the row with key `i` leaves the others alone.
  pub find-update_ne :
      (i j : ℕ) (q : A → Bool) (f : A → A) (xs : List A)
      → ((x : A) → key (f x) ≡ key x)
      → j ≢ i
      → find j (update (λ x. key x == i && q x) f xs) ≡ find j xs
  unfolding find update
  find-update_ne i j q f [] h ne = refl
  find-update_ne i j q f (x ∷ xs) h ne = ground (arith, h x, find-update_ne i j q f xs h ne)

  -- What holds of the row that is found holds of every row with its key.
  pub find-All :
      (P : A → Type 0) (i : ℕ) (xs : List A) (x : A)
      → IsKeyed xs
      → find i xs ≡ some x
      → P x
      → All (λ y. key y ≡ i → P y) xs
  unfolding find
  find-All P i [] x k e h = tt
  find-All P i (y ∷ ys) x (n, k) e h = elim (Bool-cases (key y == i)) [
    | inl same ↦ (
      λ _. subst P (first_found same) h,
      All-map (λ z. key z ≢ key y) (λ z. key z ≡ i → P z) ys
          (λ z ne q. absurd (ne (q ∙ sym (eq_of_== (key y) i same)))) n,
    )
    | inr other ↦ (
      λ q. absurd (cc (sym (==_refl i), ap (λ (k : ℕ). k == i) (sym q), other)),
      find-All P i ys x k (later_found other) h,
    )
  ]
    where
      first_found : (key y == i) ≡ true → x ≡ y
      first_found same = ground arith

      later_found : (key y == i) ≡ false → find i ys ≡ some x
      later_found other = ground arith

  update-absent :
      (p : A → Bool) (f : A → A) (i : ℕ) (xs : List A)
      → All (λ y. key y ≢ i) xs
      → update (λ y. key y == i && p y) f xs ≡ xs
  unfolding update
  update-absent p f i [] h = refl
  update-absent p f i (x ∷ xs) (n, h) = ground (arith, update-absent p f i xs h)

  -- A rewriting of one row adds at most one row that passes a test, and none unless the new row does.
  pub length-select-swap :
      (q p : A → Bool) (f : A → A) (i : ℕ) (xs : List A) (x : A)
      → IsKeyed xs
      → find i xs ≡ some x
      → length (select q (update (λ y. key y == i && p y) f xs))
        ≤ length (select q xs) + (if q (f x) then 1 else 0)
  unfolding select update find
  length-select-swap q p f i [] x k e = cc
  length-select-swap q p f i (y ∷ ys) x (n, k) e =
      ground (arith, update-absent p f (key y) ys n, length-select-swap q p f i ys x k)

  -- An update of rows with key `i` only leaves the others alone.
  pub find-update_other :
      (i j : ℕ) (p : A → Bool) (f : A → A) (xs : List A)
      → ((x : A) → key (f x) ≡ key x)
      → ((x : A) → p x ≡ true → key x ≡ i)
      → j ≢ i
      → find j (update p f xs) ≡ find j xs
  unfolding find update
  find-update_other i j p f [] h only ne = refl
  find-update_other i j p f (x ∷ xs) h only ne =
      ground (arith, h x, only x, find-update_other i j p f xs h only ne)

  -- A row with a new key may be appended.
  pub append-IsKeyed :
      (x : A) (xs : List A) → find (key x) xs ≡ none → IsKeyed xs → IsKeyed (xs ++ x ∷ [])
  unfolding find
  append-IsKeyed x [] e k = (tt, tt)
  append-IsKeyed x (y ∷ ys) e (n, k) = (
    All-append (λ z. key z ≢ key y) ys (x ∷ []) n (λ q. ground arith, tt),
    append-IsKeyed x ys (ground arith) k,
  )

  -- A row that a test lets through was found and passes it.
  pub kept-some :
      (q : A → Bool) (o : Option A) (x : A) → kept q o ≡ some x → (o ≡ some x) × (q x ≡ true)
  kept-some q o x h = (ground arith, ground arith)

  -- The first row with a key is the one that `find` finds.
  pub first-select_key : (i : ℕ) (xs : List A) → first (select (λ x. key x == i) xs) ≡ find i xs
  unfolding select first find
  first-select_key i [] = refl
  first-select_key i (x ∷ xs) = ground (arith, first-select_key i xs)
