-- ===== src/Customer/Menu/Sorting.antt =====
-- Laws of `order_by`, the `ORDER BY` of one column.
use goi_mon.Prelude.{
  ℕ, ◌≤◌, ◌≡◌, refl, Bool, List, [], ◌∷◌, arith, leb, All, All-map, Bool-cases, inl, inr, length,
}
use goi_mon.Sql.{select}
use goi_mon.Customer.Menu.{insert_sorted, order_by}

module _ {A : Type 0} (key : A → ℕ) where
  -- Every row comes before the later ones.
  abbrev pub IsAscending : List A → Type 0
  IsAscending [] = Unit
  IsAscending (x ∷ xs) = All (λ y. key x ≤ key y) xs × IsAscending xs

  All-insert :
      (P : A → Type 0) (x : A) (xs : List A) → P x → All P xs → All P (insert_sorted key x xs)
  unfolding insert_sorted
  All-insert P x [] p h = (p, tt)
  All-insert P x (y ∷ ys) p (q, h) = elim (Bool-cases (leb (key x) (key y))) [
    | inl e ↦ rw e (p, (q, h))
    | inr e ↦ rw e (q, All-insert P x ys p h)
  ]

  insert-IsAscending : (x : A) (xs : List A) → IsAscending xs → IsAscending (insert_sorted key x xs)
  unfolding insert_sorted
  insert-IsAscending x [] h = (tt, tt)
  insert-IsAscending x (y ∷ ys) (below, h) = elim (Bool-cases (leb (key x) (key y))) [
    | inl e ↦ rw e ((ground arith, All-map _ _ ys (λ z k. ground arith) below), (below, h))
    | inr e ↦
        rw e (All-insert (λ z. key y ≤ key z) x ys (ground arith) below, insert-IsAscending x ys h)
  ]

  pub order_by-IsAscending : (xs : List A) → IsAscending (order_by key xs)
  unfolding order_by
  order_by-IsAscending [] = tt
  order_by-IsAscending (x ∷ xs) = insert-IsAscending x (order_by key xs) (order_by-IsAscending xs)

  select-insert :
      (p : A → Bool) (x : A) (xs : List A)
      → length (select p (insert_sorted key x xs)) ≡ length (select p (x ∷ xs))
  unfolding insert_sorted select
  select-insert p x [] = refl
  select-insert p x (y ∷ ys) = ground (arith, select-insert p x ys)

  -- Ordering loses no row and adds none: every test holds of as many rows as before.
  pub length-select-order_by :
      (p : A → Bool) (xs : List A) → length (select p (order_by key xs)) ≡ length (select p xs)
  unfolding order_by select
  length-select-order_by p [] = refl
  length-select-order_by p (x ∷ xs) =
      ground (arith, select-insert p x (order_by key xs), length-select-order_by p xs)

  -- Rows that all have a property have it after the ordering.
  pub All-order_by : (P : A → Type 0) (xs : List A) → All P xs → All P (order_by key xs)
  unfolding order_by
  All-order_by P [] h = tt
  All-order_by P (x ∷ xs) (p, h) = All-insert P x (order_by key xs) p (All-order_by P xs h)
