-- ===== src/Reporting/Rankings.antt =====
-- The best-selling dishes.
use goi_mon.Prelude.{
  ℕ, zero, suc, ◌+◌, ◌≤◌, String, Bool, true, false, List, [], ◌∷◌, leb, ◌≡◌, refl, arith, All,
  All-map, length, sum_of, Bool-cases, inl, inr, ◌⊎◌, ◌||◌, subst, ◌∙◌, if◌then◌else◌,
}
use text.Mathlib.Text.{◌==◌ as str_eq}
use text.Mathlib.TextEquality.{eq_iff}
use text.Mathlib.TextPositions.{eq_refl}
use goi_mon.Reporting.Descending.{
  IsDescending, insert-All, by_sold-IsDescending, by_sold-All, limit-All, limit-IsDescending,
  length-limit,
}
use goi_mon.Sql.{select}
use goi_mon.Model.{OrderItem, Db}
use goi_mon.Reporting.Queries.{
  TopItem, add_to_name, by_name, insert_desc, by_sold, limit, top_items_data, is_sold,
}

-- How often a name was sold.
abbrev pub sold_as : String → OrderItem → ℕ
sold_as name x = if str_eq x.name_snapshot name then x.quantity else 0

-- What the groups say of one name; a name that has no group sold nothing.
abbrev group_of : String → TopItem → ℕ
group_of name t = if str_eq t.name name then t.sold else 0

sum-add :
    (name : String) (key : String) (n : ℕ) (ts : List TopItem)
    → sum_of (group_of name) (add_to_name key n ts)
      ≡ (if str_eq key name then n else 0) + sum_of (group_of name) ts
unfolding add_to_name
sum-add name key n [] = ground arith
sum-add name key n (t ∷ ts) = ground (arith, eq_iff key t.name, sum-add name key n ts)

by_name-sum :
    (name : String) (xs : List OrderItem)
    → sum_of (group_of name) (by_name xs) ≡ sum_of (sold_as name) xs
unfolding by_name
by_name-sum name [] = refl
by_name-sum name (x ∷ xs) =
    let before = by_name-sum name xs in
    let more = sum-add name x.name_snapshot x.quantity (by_name xs) in omega arith

-- No name stands twice.
abbrev IsGrouped : List TopItem → Type 0
IsGrouped [] = Unit
IsGrouped (t ∷ ts) = All (λ u. str_eq u.name t.name ≡ false) ts × IsGrouped ts

add-All :
    (P : String → Type 0) (name : String) (n : ℕ) (ts : List TopItem)
    → P name
    → All (λ u. P u.name) ts
    → All (λ u. P u.name) (add_to_name name n ts)
unfolding add_to_name
add-All P name n [] p h = (p, tt)
add-All P name n (t ∷ ts) p (q, h) = elim (Bool-cases (str_eq name t.name)) [
  | inl e ↦ rw e (q, h)
  | inr e ↦ rw e (q, add-All P name n ts p h)
]

add-IsGrouped :
    (name : String) (n : ℕ) (ts : List TopItem) → IsGrouped ts → IsGrouped (add_to_name name n ts)
unfolding add_to_name
add-IsGrouped name n [] h = (tt, tt)
add-IsGrouped name n (t ∷ ts) (new, h) = elim (Bool-cases (str_eq name t.name)) [
  | inl e ↦ rw e (new, h)
  | inr e ↦ rw e (add-All (λ m. str_eq m t.name ≡ false) name n ts e new, add-IsGrouped name n ts h)
]

by_name-IsGrouped : (xs : List OrderItem) → IsGrouped (by_name xs)
unfolding by_name
by_name-IsGrouped [] = tt
by_name-IsGrouped (x ∷ xs) =
    add-IsGrouped x.name_snapshot x.quantity (by_name xs) (by_name-IsGrouped xs)

str_eq_sym : (s t : String) → str_eq s t ≡ false → str_eq t s ≡ false
str_eq_sym s t h = ground (arith, eq_iff s t, eq_iff t s)

insert-IsGrouped :
    (t : TopItem) (us : List TopItem)
    → All (λ u. str_eq u.name t.name ≡ false) us
    → IsGrouped us
    → IsGrouped (insert_desc t us)
unfolding insert_desc
insert-IsGrouped t [] new h = (tt, tt)
insert-IsGrouped t (u ∷ us) (n, new) (q, h) = elim (Bool-cases (leb u.sold t.sold)) [
  | inl e ↦ rw e ((n, new), (q, h))
  | inr e ↦ rw e (
    insert-All (λ v. str_eq v.name u.name ≡ false) t us (str_eq_sym u.name t.name n) q,
    insert-IsGrouped t us new h,
  )
]

by_sold-IsGrouped : (ts : List TopItem) → IsGrouped ts → IsGrouped (by_sold ts)
unfolding by_sold
by_sold-IsGrouped [] h = tt
by_sold-IsGrouped (t ∷ ts) (new, h) =
    insert-IsGrouped t (by_sold ts) (by_sold-All (λ u. str_eq u.name t.name ≡ false) ts new)
      (by_sold-IsGrouped ts h)

insert-sum :
    (name : String) (t : TopItem) (us : List TopItem)
    → sum_of (group_of name) (insert_desc t us) ≡ group_of name t + sum_of (group_of name) us
unfolding insert_desc
insert-sum name t [] = refl
insert-sum name t (u ∷ us) = ground (arith, insert-sum name t us)

by_sold-sum :
    (name : String) (ts : List TopItem)
    → sum_of (group_of name) (by_sold ts) ≡ sum_of (group_of name) ts
unfolding by_sold
by_sold-sum name [] = refl
by_sold-sum name (t ∷ ts) = omega (arith, insert-sum name t (by_sold ts), by_sold-sum name ts)

absent-sum :
    (name : String) (ts : List TopItem)
    → All (λ u. str_eq u.name name ≡ false) ts
    → sum_of (group_of name) ts ≡ 0
absent-sum name [] h = refl
absent-sum name (t ∷ ts) (n, h) = ground (arith, absent-sum name ts h)

-- In groups, the sum of a name is at most what bounds every row.
grouped-sum-le :
    (name : String) (bound : ℕ) (ts : List TopItem)
    → IsGrouped ts
    → All (λ u. u.sold ≤ bound) ts
    → sum_of (group_of name) ts ≤ bound
grouped-sum-le name bound [] g h = omega arith
grouped-sum-le name bound (t ∷ ts) (new, g) (le, h) = elim (Bool-cases (str_eq t.name name)) [
  | inl e ↦
      let same = (eq_iff t.name name).0 e in
      let rest = absent-sum name ts (subst (λ m. All (λ u. str_eq u.name m ≡ false) ts) same new) in
      rw e (omega arith)
  | inr e ↦ let rest = grouped-sum-le name bound ts g h in rw e (omega arith)
]

abbrev pub is_listed : String → List TopItem → Bool
is_listed name [] = false
is_listed name (t ∷ ts) = str_eq t.name name || is_listed name ts

limit-beats :
    (name : String) (n : ℕ) (ts : List TopItem)
    → IsGrouped ts
    → IsDescending ts
    → (is_listed name (limit n ts) ≡ true)
      ⊎ All (λ u. sum_of (group_of name) ts ≤ u.sold) (limit n ts)
unfolding limit
limit-beats name zero ts g d = inr tt
limit-beats name (suc n) [] g d = inr tt
limit-beats name (suc n) (t ∷ ts) (new, g) (below, d) = elim (Bool-cases (str_eq t.name name)) [
  | inl e ↦ inl (rw e refl)
  | inr e ↦
      let same : sum_of (group_of name) (t ∷ ts) ≡ sum_of (group_of name) ts = ground arith in
      let least = grouped-sum-le name t.sold ts g below in
      elim (limit-beats name n ts g d) [
        | inl l ↦ inl (rw (e, l) refl)
        | inr beats ↦ inr (
          omega arith,
          All-map (λ u. sum_of (group_of name) ts ≤ u.sold)
              (λ u. sum_of (group_of name) (t ∷ ts) ≤ u.sold) (limit n ts) (λ u k. omega arith)
              beats,
        )
      ]
]

-- A further group of another name changes no sum.
grouped-later :
    (t : TopItem) (ts us : List TopItem)
    → All (λ u. str_eq u.name t.name ≡ false) us
    → All (λ u. u.sold ≡ sum_of (group_of u.name) ts) us
    → All (λ u. u.sold ≡ sum_of (group_of u.name) (t ∷ ts)) us
grouped-later t ts [] new h = tt
grouped-later t ts (u ∷ us) (n, new) (e, h) =
    ((let other = str_eq_sym u.name t.name n in ground arith), grouped-later t ts us new h)

-- In groups, a row says what its name sums to.
grouped-rows :
    (ts : List TopItem) → IsGrouped ts → All (λ t. t.sold ≡ sum_of (group_of t.name) ts) ts
grouped-rows [] g = tt
grouped-rows (t ∷ ts) (new, g) = (
  (let none = absent-sum t.name ts new in let self = eq_refl t.name in ground arith),
  grouped-later t ts ts new (grouped-rows ts g),
)

-- The rows of best sellers are at most 50, in descending order; each has the number of portions
-- of its name that the restaurant served since the given time in orders that exist; and a name
-- that has no row sold no more than any row.
pub top_items_data-IsTop :
    (since rid : ℕ) (db : Db)
    → let rows = top_items_data since rid db in
      let items = select (is_sold since rid db.orders) db.items in
      (length rows ≤ 50)
      × IsDescending rows
      × All (λ t. t.sold ≡ sum_of (sold_as t.name) items) rows
      × ((name : String)
          → (is_listed name rows ≡ true) ⊎ All (λ t. sum_of (sold_as name) items ≤ t.sold) rows)
unfolding top_items_data
top_items_data-IsTop since rid db =
    let items = select (is_sold since rid db.orders) db.items in
    let groups = by_name items in
    let sorted = by_sold groups in
    let grouped = by_name-IsGrouped items in
    let total : (name : String) → sum_of (group_of name) groups ≡ sum_of (sold_as name) items =
      λ name. by_name-sum name items in
    (
      length-limit 50 sorted,
      limit-IsDescending 50 sorted (by_sold-IsDescending groups),
      limit-All (λ t. t.sold ≡ sum_of (sold_as t.name) items) 50 sorted
          (by_sold-All (λ t. t.sold ≡ sum_of (sold_as t.name) items) groups
            (All-map (λ t. t.sold ≡ sum_of (group_of t.name) groups)
              (λ t. t.sold ≡ sum_of (sold_as t.name) items) groups (λ t e. e ∙ total t.name)
              (grouped-rows groups grouped))),
      λ name.
          subst
            (λ (n : ℕ).
              (is_listed name (limit 50 sorted) ≡ true) ⊎ All (λ t. n ≤ t.sold) (limit 50 sorted))
            (by_sold-sum name groups ∙ total name)
            (limit-beats name 50 sorted (by_sold-IsGrouped groups grouped)
              (by_sold-IsDescending groups)),
    )
