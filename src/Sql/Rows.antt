-- ===== src/Sql/Rows.antt =====
-- Laws of `select` and `update` that need no key.
use goi_mon.Prelude.{
  ◌≤◌, ℕ, ◌+◌, Bool, true, false, none, List, [], ◌∷◌, ◌++◌, ◌≡◌, refl, inl, inr, arith, All,
  length, sum_of, Bool-cases,
}
use goi_mon.Sql.{select, update, first}

module _ {A : Type 0} where
  -- An update that matches no row changes nothing.
  pub update-none :
      (p : A → Bool) (f : A → A) (xs : List A) → first (select p xs) ≡ none → update p f xs ≡ xs
  unfolding select update first
  update-none p f [] h = refl
  update-none p f (x ∷ xs) h = ground (arith, update-none p f xs)

  pub All-update :
      (P Q : A → Type 0) (p : A → Bool) (f : A → A) (xs : List A)
      → ((x : A) → P x → p x ≡ true → Q (f x))
      → ((x : A) → P x → p x ≡ false → Q x)
      → All P xs
      → All Q (update p f xs)
  unfolding update
  All-update P Q p f [] hit miss h = tt
  All-update P Q p f (x ∷ xs) hit miss (px, h) = elim (Bool-cases (p x)) [
    | inl e ↦ rw e (hit x px e, All-update P Q p f xs hit miss h)
    | inr e ↦ rw e (miss x px e, All-update P Q p f xs hit miss h)
  ]

  pub sum_of-update :
      (g : A → ℕ) (p : A → Bool) (f : A → A) (xs : List A)
      → ((x : A) → g (f x) ≡ g x)
      → sum_of g (update p f xs) ≡ sum_of g xs
  unfolding update
  sum_of-update g p f [] h = refl
  sum_of-update g p f (x ∷ xs) h = ground (arith, h x, sum_of-update g p f xs h)

  -- An update of rows that a selection passes over, before and after, does not change it.
  pub select-update_disjoint :
      (q p : A → Bool) (f : A → A) (xs : List A)
      → ((x : A) → p x ≡ true → q x ≡ false)
      → ((x : A) → p x ≡ true → q (f x) ≡ false)
      → select q (update p f xs) ≡ select q xs
  unfolding select update
  select-update_disjoint q p f [] before after = refl
  select-update_disjoint q p f (x ∷ xs) before after =
      ground (arith, before x, after x, select-update_disjoint q p f xs before after)

  -- An update that makes no new row pass a test does not raise the number of rows that pass.
  pub length-select-update :
      (q p : A → Bool) (f : A → A) (xs : List A)
      → ((x : A) → p x ≡ true → q (f x) ≡ true → q x ≡ true)
      → length (select q (update p f xs)) ≤ length (select q xs)
  unfolding select update
  length-select-update q p f [] h = omega arith
  length-select-update q p f (x ∷ xs) h = ground (arith, h x, length-select-update q p f xs h)

  -- The rows that an update rewrites no longer pass its test, if the rewriting sees to it.
  pub select-update_self :
      (p q : A → Bool) (f : A → A) (xs : List A)
      → ((x : A) → p x ≡ true → q (f x) ≡ false)
      → ((x : A) → p x ≡ false → q x ≡ false)
      → select q (update p f xs) ≡ []
  unfolding select update
  select-update_self p q f [] hit miss = refl
  select-update_self p q f (x ∷ xs) hit miss =
      ground (arith, hit x, miss x, select-update_self p q f xs hit miss)

  pub length-select-append :
      (q : A → Bool) (xs ys : List A)
      → length (select q (xs ++ ys)) ≡ length (select q xs) + length (select q ys)
  unfolding select
  length-select-append q [] ys = omega arith
  length-select-append q (x ∷ xs) ys = ground (arith, length-select-append q xs ys)

  -- A selection with no first row is empty.
  pub length-select-none :
      (q : A → Bool) (xs : List A) → first (select q xs) ≡ none → length (select q xs) ≡ 0
  unfolding first
  length-select-none q xs h = ground arith

  pub everywhere : (P : A → Type 0) (xs : List A) → ((x : A) → P x) → All P xs
  everywhere P [] h = tt
  everywhere P (x ∷ xs) h = (h x, everywhere P xs h)

  pub All-and : (P Q : A → Type 0) (xs : List A) → All P xs → All Q xs → All (λ x. P x × Q x) xs
  All-and P Q [] h k = tt
  All-and P Q (x ∷ xs) (p, h) (q, k) = ((p, q), All-and P Q xs h k)
