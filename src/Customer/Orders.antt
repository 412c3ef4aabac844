-- ===== src/Customer/Orders.antt =====
-- `POST /t/{qr_token}/orders`: a cart becomes an order with snapshots of its dishes.
pub mod Snapshots
pub mod Failures
pub mod Refusals
use goi_mon.Prelude.{
  ℕ, suc, ◌+◌, String, Bool, true, false, ◌&&◌, not, Option, none, some, List, [], ◌∷◌, ◌++◌, map,
  ◌==◌, ltb, if◌then◌else◌, Exec, Result, ok, err, gets, pure, raise_if, modify, ◌>>=◌, ◌>>◌,
}
use goi_mon.Sql.{select, update, first}
use goi_mon.Model.{OrderItemStatus, pending, is_open, MenuItem, Order, OrderItem, TableSession, Db}
use goi_mon.Items.{set_activity}
use goi_mon.Calls.{touch_session}
use goi_mon.Realtime.{World, announce, EventType, Payload, ItemSummary}
use goi_mon.Http.{
  HttpError, session_not_open, unknown_dish, dish_sold_out, invalid_body, Env, resolve,
  open_session,
}

-- CreateOrderItemRequest
pub record OrderLine : Type 0 where
  pub menu_item_id : ℕ
  pub quantity : ℕ
  pub note : Option String

-- Every `quantity` is above 0.
unfoldable pub has_quantities : List OrderLine → Bool
has_quantities [] = true
has_quantities (l ∷ ls) = ltb 0 l.quantity && has_quantities ls

-- The constraints of CreateOrderRequest: at least one line, each with a quantity.
unfoldable pub is_valid_body : List OrderLine → Bool
unfolding has_quantities
is_valid_body [] = false
is_valid_body (l ∷ ls) = has_quantities (l ∷ ls)

-- The dish of this restaurant that is not hidden.
unfoldable pub find_dish : ℕ → ℕ → Db → Option MenuItem
unfolding select first
find_dish restaurant_id menu_item_id db = first (
    select (λ m. m.id == menu_item_id && (m.restaurant_id == restaurant_id && m.is_active))
      db.menu_items)

abbrev pub check_dish : Option MenuItem → Result HttpError MenuItem
check_dish none = err unknown_dish
check_dish (some m) = if m.is_available then ok m else err dish_sold_out

abbrev pub put_dish :
    OrderLine
    → MenuItem
    → Result HttpError (List (OrderLine × MenuItem))
    → Result HttpError (List (OrderLine × MenuItem))
put_dish l m (ok rest) = ok ((l, m) ∷ rest)
put_dish l m (err e) = err e

-- Step e: the lines with their dishes, or the error of the first line that fails. The source keeps
-- the dishes in a dict by id; every query for one id in this loop finds the same row.
unfoldable pub check_lines :
    ℕ → Db → List OrderLine → Result HttpError (List (OrderLine × MenuItem))
unfolding find_dish
check_lines restaurant_id db [] = ok []
check_lines restaurant_id db (l ∷ ls) =
    let rest = check_lines restaurant_id db ls in
    elim (check_dish (find_dish restaurant_id l.menu_item_id db)) [
      | ok m ↦ put_dish l m rest
      | err e ↦ err e
    ]

unfoldable pub new_order : ℕ → ℕ → ℕ → ℕ → Order
new_order now order_id restaurant_id session_id = record {
  id = order_id;
  restaurant_id = restaurant_id;
  table_session_id = session_id;
  note = none;
  created_at = now;
}

-- An OrderItem with the snapshots of its dish; the other columns have their defaults.
unfoldable pub new_item : ℕ → ℕ → ℕ → ℕ → OrderLine → MenuItem → OrderItem
new_item clock item_id restaurant_id order_id line dish = record {
  id = item_id;
  restaurant_id = restaurant_id;
  order_id = order_id;
  menu_item_id = dish.id;
  name_snapshot = dish.name;
  price_snapshot = dish.price;
  prep_time_snapshot = dish.prep_time_minutes;
  quantity = line.quantity;
  note = line.note;
  status = pending;
  requested_at = clock;
  served_by = none;
  served_at = none;
  cancelled_by = none;
  cancelled_at = none;
  cancel_reason = none;
}

-- The items of an order; the `k`-th of them gets the id `item_id k`.
unfoldable pub new_items : ℕ → (ℕ → ℕ) → ℕ → ℕ → ℕ → List (OrderLine × MenuItem) → List OrderItem
unfolding new_item
new_items clock item_id k restaurant_id order_id [] = []
new_items clock item_id k restaurant_id order_id ((l, m) ∷ rest) =
    new_item clock (item_id k) restaurant_id order_id l m
    ∷ new_items clock item_id (suc k) restaurant_id order_id rest

abbrev pub summary : OrderItem → ItemSummary
summary x = record {
  id = x.id;
  name_snapshot = x.name_snapshot;
  quantity = x.quantity;
  status = x.status;
}

pub record OrderResponse : Type 0 where
  pub id : ℕ
  pub table_session_id : ℕ
  pub created_at : ℕ
  pub items : List OrderItem

-- Steps f to i: one transaction that adds the order and its items and touches the session.
unfoldable pub insert_order : Order → List OrderItem → ℕ → Db → Db
unfolding touch_session
insert_order order items clock db =
    touch_session clock order.table_session_id
      (record db { orders = db.orders ++ order ∷ []; items = db.items ++ items })

unfoldable pub place_order :
    Env → ℕ → TableSession → List (OrderLine × MenuItem) → Exec World HttpError OrderResponse
unfolding new_order new_items insert_order announce
place_order env restaurant_id s lines w =
    let order = new_order env.now env.order_id restaurant_id s.id in
    let items = new_items env.clock env.item_id 0 restaurant_id order.id lines in
    (
      ok (record {
        id = order.id;
        table_session_id = order.table_session_id;
        created_at = order.created_at;
        items = items;
      }),
      announce restaurant_id s.id EventType.order_created
          (Payload.order order.id order.table_session_id (map summary items))
          (record w { db = insert_order order items env.clock w.db }),
    )

-- The result of a pure check, as a step.
abbrev pub returned : {A : Type 0} → Result HttpError A → Exec World HttpError A
returned r w = (r, w)

unfoldable pub order_in_session :
    Env → ℕ → List OrderLine → TableSession → Exec World HttpError OrderResponse
unfolding check_lines place_order
order_in_session env restaurant_id body s = do
  raise_if (not (is_open s.status)) session_not_open
  modify (λ w. record w { db = env.between w.db })
  checked ← gets (λ w. check_lines restaurant_id w.db body)
  lines ← returned checked
  place_order env restaurant_id s lines

unfoldable pub create_order : Env → String → List OrderLine → Exec World HttpError OrderResponse
unfolding is_valid_body resolve open_session order_in_session
create_order env qr_token body = do
  raise_if (not (is_valid_body body)) invalid_body
  (table, restaurant) ← resolve qr_token
  s ← open_session env table.id restaurant.id none
  order_in_session env restaurant.id body s
