-- ===== src/Reporting/Totals.antt =====
-- The daily revenue adds up to what was billed.
use goi_mon.Prelude.{
  ℕ, ◌+◌, ◌<◌, List, [], ◌∷◌, ◌==◌, ltb, ◌≡◌, refl, arith, All, All-map, length, sum_of,
  if◌then◌else◌, Bool-cases, inl, inr,
}
use goi_mon.Sql.{select}
use goi_mon.Model.{TableSession, Db}
use goi_mon.Reporting.Queries.{
  RevenueRow, add_to_day, by_day, revenue_data, is_billed, amount, day_of_closing,
}

-- Each day once, in their order.
abbrev pub IsChronological : List RevenueRow → Type 0
IsChronological [] = Unit
IsChronological (r ∷ rs) = All (λ q. r.day < q.day) rs × IsChronological rs

abbrev pub revenue_of : RevenueRow → ℕ
revenue_of r = r.revenue

abbrev pub sessions_of : RevenueRow → ℕ
sessions_of r = r.sessions

sum-add :
    (day money : ℕ) (rs : List RevenueRow)
    → (sum_of revenue_of (add_to_day day money rs) ≡ money + sum_of revenue_of rs)
      × (sum_of sessions_of (add_to_day day money rs) ≡ 1 + sum_of sessions_of rs)
unfolding add_to_day
sum-add day money [] = (omega arith, omega arith)
sum-add day money (r ∷ rs) = ground (arith, sum-add day money rs)

-- What the rows of one day say.
abbrev pub revenue_on : ℕ → RevenueRow → ℕ
revenue_on d r = if r.day == d then r.revenue else 0

sum-add_on :
    (d day money : ℕ) (rs : List RevenueRow)
    → sum_of (revenue_on d) (add_to_day day money rs)
      ≡ (if day == d then money else 0) + sum_of (revenue_on d) rs
unfolding add_to_day
sum-add_on d day money [] = ground arith
sum-add_on d day money (r ∷ rs) = ground (arith, sum-add_on d day money rs)

All-add :
    (bound day money : ℕ) (rs : List RevenueRow)
    → bound < day
    → All (λ q. bound < q.day) rs
    → All (λ q. bound < q.day) (add_to_day day money rs)
unfolding add_to_day
All-add bound day money [] h k = (h, tt)
All-add bound day money (r ∷ rs) h (p, k) = elim (Bool-cases (day == r.day)) [
  | inl e ↦ rw e (p, k)
  | inr ne ↦ elim (Bool-cases (ltb day r.day)) [
    | inl lt ↦ rw (ne, lt) (h, (p, k))
    | inr ge ↦ rw (ne, ge) (p, All-add bound day money rs h k)
  ]
]

add-IsChronological :
    (day money : ℕ) (rs : List RevenueRow)
    → IsChronological rs
    → IsChronological (add_to_day day money rs)
unfolding add_to_day
add-IsChronological day money [] h = (tt, tt)
add-IsChronological day money (r ∷ rs) (below, h) = elim (Bool-cases (day == r.day)) [
  | inl e ↦ rw e (below, h)
  | inr ne ↦ elim (Bool-cases (ltb day r.day)) [
    | inl lt ↦
        rw (ne, lt)
          (
            (
              (ground arith),
              All-map (λ q. r.day < q.day) (λ q. day < q.day) rs (λ q k. ground arith) below,
            ),
            (below, h),
          )
    | inr ge ↦
        rw (ne, ge)
          (All-add r.day day money rs (ground arith) below, add-IsChronological day money rs h)
  ]
]

-- What a session adds to a day.
abbrev pub billed_on : (ℕ → ℕ) → ℕ → TableSession → ℕ
billed_on date d s = if day_of_closing date s.closed_at == d then amount s.total_amount else 0

by_day-sum_on :
    (date : ℕ → ℕ) (d : ℕ) (ss : List TableSession)
    → sum_of (revenue_on d) (by_day date ss) ≡ sum_of (billed_on date d) ss
unfolding by_day
by_day-sum_on date d [] = refl
by_day-sum_on date d (s ∷ ss) =
    let before = by_day-sum_on date d ss in
    let more =
      sum-add_on d (day_of_closing date s.closed_at) (amount s.total_amount) (by_day date ss) in
    omega arith

by_day-totals :
    (date : ℕ → ℕ) (ss : List TableSession)
    → (sum_of revenue_of (by_day date ss) ≡ sum_of (λ s. amount s.total_amount) ss)
      × (sum_of sessions_of (by_day date ss) ≡ length ss)
      × IsChronological (by_day date ss)
unfolding by_day
by_day-totals date [] = (refl, refl, tt)
by_day-totals date (s ∷ ss) =
    let day = day_of_closing date s.closed_at in
    let (money, count, order) = by_day-totals date ss in
    let (more, one) = sum-add day (amount s.total_amount) (by_day date ss) in
    (
      omega arith,
      omega arith,
      add-IsChronological day (amount s.total_amount) (by_day date ss) order,
    )

-- The revenue rows of a restaurant have strictly ascending days; their revenues add up to the
-- totals of its closed sessions since the given time, and their counts to the number of these;
-- and for every day the revenue in the rows is the sum of the totals of the sessions closed on
-- that day.
pub revenue_data-IsComplete :
    (date : ℕ → ℕ) (since rid : ℕ) (db : Db)
    → let rows = revenue_data date since rid db in
      let billed = select (is_billed since rid) db.sessions in
      IsChronological rows
      × (sum_of revenue_of rows ≡ sum_of (λ s. amount s.total_amount) billed)
      × (sum_of sessions_of rows ≡ length billed)
      × ((d : ℕ) → sum_of (revenue_on d) rows ≡ sum_of (billed_on date d) billed)
unfolding revenue_data
revenue_data-IsComplete date since rid db =
    let (money, count, order) = by_day-totals date (select (is_billed since rid) db.sessions) in
    (order, money, count, λ d. by_day-sum_on date d (select (is_billed since rid) db.sessions))
