-- ===== src/Reporting/Queries.antt =====
-- The two aggregate queries of qorder_api/reporting.
use goi_mon.Prelude.{
  ℕ, zero, suc, ◌+◌, String, Bool, true, false, ◌&&◌, Option, none, some, List, [], ◌∷◌, ◌==◌, leb,
  ltb, if◌then◌else◌,
}
use text.Mathlib.Text.{◌==◌ as str_eq}
use goi_mon.Sql.{select}
use goi_mon.Sql.Keyed.{find}
use goi_mon.Model.{
  SessionStatus, closed, served, same_status, TableSession, Order, OrderItem, Db, order_key,
}

abbrev pub is_closed : SessionStatus → Bool
is_closed closed = true
is_closed _ = false

-- A time that is there and not before `since`: NULL passes no comparison.
abbrev pub at_or_after : ℕ → Option ℕ → Bool
at_or_after since none = false
at_or_after since (some t) = leb since t

-- SUM passes over NULL.
abbrev pub amount : Option ℕ → ℕ
amount none = 0
amount (some n) = n

-- restaurant_id = :rid AND status = 'closed' AND closed_at >= :since
unfoldable pub is_billed : ℕ → ℕ → TableSession → Bool
is_billed since rid s =
    s.restaurant_id == rid && (is_closed s.status && at_or_after since s.closed_at)

pub record RevenueRow : Type 0 where
  pub day : ℕ
  pub revenue : ℕ
  pub sessions : ℕ

-- One session more in the groups, which stand in the order of their days.
unfoldable pub add_to_day : ℕ → ℕ → List RevenueRow → List RevenueRow
add_to_day day money [] = record { day = day; revenue = money; sessions = 1 } ∷ []
add_to_day day money (r ∷ rs) =
    let rest = add_to_day day money rs in
    if day == r.day
    then record r { revenue = r.revenue + money; sessions = r.sessions + 1 } ∷ rs
    else if ltb day r.day
    then record { day = day; revenue = money; sessions = 1 } ∷ r ∷ rs
    else r ∷ rest

abbrev pub day_of_closing : (ℕ → ℕ) → Option ℕ → ℕ
day_of_closing date none = 0
day_of_closing date (some t) = date t

-- GROUP BY closed_at::date ORDER BY day
unfoldable pub by_day : (ℕ → ℕ) → List TableSession → List RevenueRow
unfolding add_to_day
by_day date [] = []
by_day date (s ∷ ss) =
    add_to_day (day_of_closing date s.closed_at) (amount s.total_amount) (by_day date ss)

-- `date` is `::date` in the time zone of the connection, `since` the start of the day that Python
-- computes, 30 days ago. The sums stay exact, where the source rounds them to a `float`.
unfoldable pub revenue_data : (ℕ → ℕ) → ℕ → ℕ → Db → List RevenueRow
unfolding select is_billed by_day
revenue_data date since rid db = by_day date (select (is_billed since rid) db.sessions)

pub record TopItem : Type 0 where
  pub name : String
  pub sold : ℕ

abbrev pub has_order : Option Order → Bool
has_order none = false
has_order (some o) = true

-- The rows of the JOIN with `orders`, served since then.
unfoldable pub is_sold : ℕ → ℕ → List Order → OrderItem → Bool
unfolding find
is_sold since rid orders x =
    has_order (find order_key x.order_id orders)
    && (x.restaurant_id == rid && (same_status x.status served && at_or_after since x.served_at))

unfoldable pub add_to_name : String → ℕ → List TopItem → List TopItem
add_to_name name n [] = record { name = name; sold = n } ∷ []
add_to_name name n (t ∷ ts) =
    let rest = add_to_name name n ts in
    if str_eq name t.name then record t { sold = t.sold + n } ∷ ts else t ∷ rest

-- GROUP BY oi.name_snapshot
unfoldable pub by_name : List OrderItem → List TopItem
unfolding add_to_name
by_name [] = []
by_name (x ∷ xs) = add_to_name x.name_snapshot x.quantity (by_name xs)

unfoldable pub insert_desc : TopItem → List TopItem → List TopItem
insert_desc t [] = t ∷ []
insert_desc t (u ∷ us) =
    let rest = insert_desc t us in if leb u.sold t.sold then t ∷ u ∷ us else u ∷ rest

-- ORDER BY total_sold DESC; SQL leaves the order of equal totals open.
unfoldable pub by_sold : List TopItem → List TopItem
unfolding insert_desc
by_sold [] = []
by_sold (t ∷ ts) = insert_desc t (by_sold ts)

-- LIMIT n
unfoldable pub limit : ℕ → List TopItem → List TopItem
limit zero ts = []
limit (suc n) [] = []
limit (suc n) (t ∷ ts) = t ∷ limit n ts

unfoldable pub top_items_data : ℕ → ℕ → Db → List TopItem
unfolding select is_sold by_name by_sold limit
top_items_data since rid db =
    limit 50 (by_sold (by_name (select (is_sold since rid db.orders) db.items)))
