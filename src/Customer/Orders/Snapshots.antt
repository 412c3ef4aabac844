-- ===== src/Customer/Orders/Snapshots.antt =====
-- The accepted orders of `create_order` (qorder_api/api/customer_router.py) and their snapshots.
use goi_mon.Prelude.{
  ℕ, suc, ◌≡◌, refl, sym, ◌∙◌, ap, true, false, Option, none, some, List, [], ◌∷◌, ◌++◌, arith,
  Result, ok, err, Bool-cases, inl, inr,
}
use goi_mon.Model.{
  pending, MenuItem, OrderItem, TableSession, Db, is_open, SessionStatus, opened, closed, abandoned,
}
use goi_mon.Realtime.{World, announce, publish}
use goi_mon.Calls.{touch_session}
use goi_mon.Http.{HttpError, session_not_open, Env}
use goi_mon.Customer.Orders.{
  OrderLine, find_dish, check_dish, put_dish, check_lines, new_item, new_items, new_order,
  OrderResponse, insert_order, place_order, order_in_session,
}

-- An item of an order is what its line asked for, of a dish on sale, at the dish's present price.
pub record IsSnapshot (rid oid clock : ℕ) (db : Db) (l : OrderLine) (x : OrderItem) : Type 0 where
  pub dish : MenuItem
  pub on_menu : find_dish rid l.menu_item_id db ≡ some dish
  pub on_sale : dish.is_available ≡ true
  pub of_dish : x.menu_item_id ≡ dish.id
  pub named : x.name_snapshot ≡ dish.name
  pub priced : x.price_snapshot ≡ dish.price
  pub timed : x.prep_time_snapshot ≡ dish.prep_time_minutes
  pub counted : x.quantity ≡ l.quantity
  pub noted : x.note ≡ l.note
  pub waiting : x.status ≡ pending
  pub requested : x.requested_at ≡ clock
  pub ordered : x.order_id ≡ oid
  pub owned : x.restaurant_id ≡ rid

-- The items answer the lines one by one, in the order of the cart.
abbrev pub Snapshots : ℕ → ℕ → ℕ → Db → List OrderLine → List OrderItem → Type 0
Snapshots rid oid clock db [] [] = Unit
Snapshots rid oid clock db [] (x ∷ xs) = ⊥
Snapshots rid oid clock db (l ∷ ls) [] = ⊥
Snapshots rid oid clock db (l ∷ ls) (x ∷ xs) =
    IsSnapshot rid oid clock db l x × Snapshots rid oid clock db ls xs

-- What the check of a cart makes of a line and of the rest.
abbrev pub line_result :
    OrderLine
    → Option MenuItem
    → Result HttpError (List (OrderLine × MenuItem))
    → Result HttpError (List (OrderLine × MenuItem))
line_result l found rest = elim (check_dish found) [ ok m ↦ put_dish l m rest | err e ↦ err e ]

line_ok :
    (l : OrderLine) (found : Option MenuItem)
    (rest : Result HttpError (List (OrderLine × MenuItem))) (pairs : List (OrderLine × MenuItem))
    → line_result l found rest ≡ ok pairs
    → (m : MenuItem) × (others : List (OrderLine × MenuItem)) × (found ≡ some m)
      × (m.is_available ≡ true)
      × (rest ≡ ok others)
      × (pairs ≡ (l, m) ∷ others)
line_ok l none rest pairs h = absurd (ground arith)
line_ok l (some m) (ok others) pairs h = elim (Bool-cases m.is_available) [
  | inl e ↦ (m, others, refl, e, refl, ground arith)
  | inr e ↦ absurd (ground arith)
]
line_ok l (some m) (err x) pairs h = absurd (ground arith)

snapshots :
    (rid oid clock k : ℕ) (item_id : ℕ → ℕ) (db : Db) (body : List OrderLine)
    (pairs : List (OrderLine × MenuItem))
    → check_lines rid db body ≡ ok pairs
    → Snapshots rid oid clock db body (new_items clock item_id k rid oid pairs)
unfolding check_lines new_items new_item find_dish
snapshots rid oid clock k item_id db [] [] h = tt
snapshots rid oid clock k item_id db [] (p ∷ ps) h = absurd (ground arith)
snapshots rid oid clock k item_id db (l ∷ ls) pairs h =
    let (m, others, found, available, rest, e) =
      line_ok l (find_dish rid l.menu_item_id db) (check_lines rid db ls) pairs h in
    rw e (
      record {
        dish = m;
        on_menu = found;
        on_sale = available;
        of_dish = refl;
        named = refl;
        priced = refl;
        timed = refl;
        counted = refl;
        noted = refl;
        waiting = refl;
        requested = refl;
        ordered = refl;
        owned = refl;
      },
      snapshots rid oid clock (suc k) item_id db ls others rest,
    )

module _ (env : Env) (rid : ℕ) (body : List OrderLine) (s : TableSession) (w : World) where
  -- What the handler sees after what others committed meanwhile.
  abbrev pub seen : World
  seen = record w { db = env.between w.db }

  pub order_refused :
      is_open s.status ≡ false → order_in_session env rid body s w ≡ (err session_not_open, w)
  unfolding order_in_session
  order_refused shut = rw shut

  pub order_unavailable :
      (x : HttpError)
      → is_open s.status ≡ true
      → check_lines rid (env.between w.db) body ≡ err x
      → order_in_session env rid body s w ≡ (err x, seen)
  unfolding order_in_session
  order_unavailable x up e = rw (up, e)

  pub order_placed :
      (pairs : List (OrderLine × MenuItem))
      → is_open s.status ≡ true
      → check_lines rid (env.between w.db) body ≡ ok pairs
      → order_in_session env rid body s w ≡ place_order env rid s pairs seen
  unfolding order_in_session
  order_placed pairs up e = rw (up, e)

-- What a successful order has stored and answered, by the database it was checked on and after.
pub record IsOrdered (env : Env) (rid : ℕ) (body : List OrderLine) (s : TableSession) (db db' : Db)
    (r : OrderResponse) : Type 0 where
  pub for_session : r.table_session_id ≡ s.id
  pub snapshots : Snapshots rid r.id env.clock db body r.items
  pub items_added : db'.items ≡ db.items ++ r.items
  pub orders_added : db'.orders ≡ db.orders ++ new_order env.now r.id rid s.id ∷ []
  pub session_bumped : db'.sessions ≡ (touch_session env.clock s.id db).sessions
  pub calls_kept : db'.calls ≡ db.calls

opened_of : (a : SessionStatus) → is_open a ≡ true → a ≡ opened
opened_of opened h = refl
opened_of closed h = absurd (ground arith)
opened_of abandoned h = absurd (ground arith)

answer_of : (q : Result HttpError OrderResponse) (a r : OrderResponse) → q ≡ ok a → q ≡ ok r → a ≡ r
answer_of q a r e h = ground arith

placed-IsOrdered :
    (env : Env) (rid : ℕ) (body : List OrderLine) (s : TableSession) (w : World)
    (pairs : List (OrderLine × MenuItem)) (r : OrderResponse)
    → check_lines rid w.db body ≡ ok pairs
    → (place_order env rid s pairs w).0 ≡ ok r
    → IsOrdered env rid body s w.db (place_order env rid s pairs w).1.db r
unfolding place_order announce publish insert_order new_order touch_session
placed-IsOrdered env rid body s w pairs r e h =
    rw (sym (answer_of (place_order env rid s pairs w).0 _ r refl h)) (record {
      for_session = refl;
      snapshots = snapshots rid env.order_id env.clock 0 env.item_id w.db body pairs e;
      items_added = refl;
      orders_added = refl;
      session_bumped = refl;
      calls_kept = refl;
    })

-- An order that succeeds was placed on a session that was read as open. Its items answer the
-- lines of the cart one by one, each with the present name, price and preparation time of a dish
-- of the restaurant that is on sale, with the line's quantity and note, pending; the order and
-- its items are stored behind the earlier ones, the session is marked active, no call changes,
-- and the answer lists the stored items.
pub order_in_session-IsOrdered :
    (env : Env) (rid : ℕ) (body : List OrderLine) (s : TableSession) (w : World) (r : OrderResponse)
    → (order_in_session env rid body s w).0 ≡ ok r
    → (s.status ≡ opened)
      × IsOrdered env rid body s (env.between w.db) (order_in_session env rid body s w).1.db r
order_in_session-IsOrdered env rid body s w r h = elim (Bool-cases (is_open s.status)) [
  | inr shut ↦ absurd (clash shut)
  | inl up ↦ (opened_of s.status up, when_open up (check_lines rid (env.between w.db) body) refl)
]
  where
    clash : is_open s.status ≡ false → ⊥
    clash shut = ground (arith, ap (λ t. t.0) (order_refused env rid body s w shut))

    when_open :
        is_open s.status ≡ true
        → (c : Result HttpError (List (OrderLine × MenuItem)))
        → check_lines rid (env.between w.db) body ≡ c
        → IsOrdered env rid body s (env.between w.db) (order_in_session env rid body s w).1.db r
    when_open up (err x) e =
        absurd (ground (arith, ap (λ t. t.0) (order_unavailable env rid body s w x up e)))
    when_open up (ok pairs) e =
        let run = order_placed env rid body s w pairs up e in
        rw run (
          placed-IsOrdered env rid body s (seen env rid body s w) pairs r e
            (sym (ap (λ t. t.0) run) ∙ h))
