-- ===== src/Reporting/Descending.antt =====
-- `ORDER BY total_sold DESC LIMIT n`
use goi_mon.Prelude.{
  ℕ, zero, suc, ◌≤◌, List, [], ◌∷◌, leb, arith, All, All-map, length, Bool-cases, inl, inr,
}
use goi_mon.Reporting.Queries.{TopItem, insert_desc, by_sold, limit}

-- Every row sold at least as often as the later ones.
abbrev pub IsDescending : List TopItem → Type 0
IsDescending [] = Unit
IsDescending (t ∷ ts) = All (λ u. u.sold ≤ t.sold) ts × IsDescending ts

pub insert-All :
    (P : TopItem → Type 0) (t : TopItem) (us : List TopItem)
    → P t
    → All P us
    → All P (insert_desc t us)
unfolding insert_desc
insert-All P t [] p h = (p, tt)
insert-All P t (u ∷ us) p (q, h) = elim (Bool-cases (leb u.sold t.sold)) [
  | inl e ↦ rw e (p, (q, h))
  | inr e ↦ rw e (q, insert-All P t us p h)
]

insert-IsDescending :
    (t : TopItem) (us : List TopItem) → IsDescending us → IsDescending (insert_desc t us)
unfolding insert_desc
insert-IsDescending t [] h = (tt, tt)
insert-IsDescending t (u ∷ us) (below, h) = elim (Bool-cases (leb u.sold t.sold)) [
  | inl e ↦ rw e (
    (
      ground arith,
      All-map (λ v. v.sold ≤ u.sold) (λ v. v.sold ≤ t.sold) us (λ v k. ground arith) below,
    ),
    (below, h),
  )
  | inr e ↦
      rw e (insert-All (λ v. v.sold ≤ u.sold) t us (ground arith) below, insert-IsDescending t us h)
]

pub by_sold-IsDescending : (ts : List TopItem) → IsDescending (by_sold ts)
unfolding by_sold
by_sold-IsDescending [] = tt
by_sold-IsDescending (t ∷ ts) = insert-IsDescending t (by_sold ts) (by_sold-IsDescending ts)

pub by_sold-All : (P : TopItem → Type 0) (ts : List TopItem) → All P ts → All P (by_sold ts)
unfolding by_sold
by_sold-All P [] h = tt
by_sold-All P (t ∷ ts) (p, h) = insert-All P t (by_sold ts) p (by_sold-All P ts h)

pub limit-All : (P : TopItem → Type 0) (n : ℕ) (ts : List TopItem) → All P ts → All P (limit n ts)
unfolding limit
limit-All P zero ts h = tt
limit-All P (suc n) [] h = tt
limit-All P (suc n) (t ∷ ts) (p, h) = (p, limit-All P n ts h)

pub limit-IsDescending : (n : ℕ) (ts : List TopItem) → IsDescending ts → IsDescending (limit n ts)
unfolding limit
limit-IsDescending zero ts h = tt
limit-IsDescending (suc n) [] h = tt
limit-IsDescending (suc n) (t ∷ ts) (below, h) =
    (limit-All (λ u. u.sold ≤ t.sold) n ts below, limit-IsDescending n ts h)

pub length-limit : (n : ℕ) (ts : List TopItem) → length (limit n ts) ≤ n
unfolding limit
length-limit zero ts = omega arith
length-limit (suc n) [] = omega arith
length-limit (suc n) (t ∷ ts) = omega (arith, length-limit n ts)
