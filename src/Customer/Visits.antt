-- ===== src/Customer/Visits.antt =====
-- The other customer endpoints: the session snapshot, the cancelling of an item, the call for staff.
use goi_mon.Prelude.{
  ℕ, String, ◌&&◌, Option, none, List, [], ◌∷◌, ◌==◌, Exec, ok, gets, pure, or_raise, modify, ◌>>=◌,
  ◌>>◌,
}
use goi_mon.Sql.{select, first}
use goi_mon.Model.{pending, CancelledBy, OrderItem, TableSession, StaffCall, Db}
use goi_mon.Items.{ItemError, cancel_item}
use goi_mon.Calls.{create}
use goi_mon.Sessions.{in_session}
use goi_mon.Realtime.{World, on_db, announce, EventType, Payload}
use goi_mon.Http.{HttpError, unknown_item, item_conflict, Env, resolve, open_session, rescue}
use goi_mon.Customer.Menu.{order_by}

abbrev pub requested_order : OrderItem → ℕ
requested_order x = x.requested_at

pub record SessionSnapshot : Type 0 where
  pub session : TableSession
  pub items : List OrderItem

-- order_items joined with the orders of a session, ORDER BY requested_at
unfoldable pub session_items : ℕ → Db → List OrderItem
unfolding select in_session order_by
session_items session_id db =
    order_by requested_order (select (in_session session_id db.orders) db.items)

unfoldable pub get_session_snapshot : Env → String → Exec World HttpError SessionSnapshot
unfolding resolve open_session session_items
get_session_snapshot env qr_token = do
  (table, restaurant) ← resolve qr_token
  s ← open_session env table.id restaurant.id none
  modify (λ w. record w { db = env.between w.db })
  items ← gets (λ w. session_items s.id w.db)
  pure (record { session = s; items = items })

-- The item that the customer names, if it is on an order of this session.
unfoldable pub find_own_item : ℕ → ℕ → ℕ → Db → Option OrderItem
unfolding select first in_session
find_own_item item_id session_id restaurant_id db = first (
    select
      (λ x.
        x.id == item_id && (in_session session_id db.orders x && x.restaurant_id == restaurant_id))
      db.items)

-- `except ConflictError`, the one error of `cancel_item`
abbrev pub cancel_error : ItemError → HttpError
cancel_error e = item_conflict

unfoldable pub announce_cancel :
    ℕ → ℕ → CancelledBy → Option ℕ → OrderItem → Exec World HttpError OrderItem
unfolding announce
announce_cancel restaurant_id session_id who order_id x w = (
  ok x,
  announce restaurant_id session_id EventType.item_cancelled
      (Payload.cancelled_item x.id x.status who order_id) w,
)

unfoldable pub cancel_in_session :
    Env → ℕ → Option String → ℕ → TableSession → Exec World HttpError OrderItem
unfolding find_own_item cancel_item announce_cancel
cancel_in_session env item_id reason restaurant_id s = do
  modify (λ w. record w { db = env.between w.db })
  found ← gets (λ w. find_own_item item_id s.id restaurant_id w.db)
  own ← or_raise found unknown_item
  updated ←
      rescue cancel_error (
        on_db
          (cancel_item env.now item_id CancelledBy.customer restaurant_id (pending ∷ []) reason))
  announce_cancel restaurant_id s.id CancelledBy.customer none updated

unfoldable pub cancel_item_customer :
    Env → String → ℕ → Option String → Exec World HttpError OrderItem
unfolding resolve open_session cancel_in_session
cancel_item_customer env qr_token item_id reason = do
  (table, restaurant) ← resolve qr_token
  s ← open_session env table.id restaurant.id none
  cancel_in_session env item_id reason restaurant.id s

-- `none` is the soft answer within the cooldown.
unfoldable pub call_staff : Env → String → Exec World HttpError (Option StaffCall)
unfolding resolve open_session create
call_staff env qr_token = do
  (table, restaurant) ← resolve qr_token
  s ← open_session env table.id restaurant.id none
  modify (λ w. record w { db = env.between w.db })
  create env.ringing env.now env.call_id table.id s.id restaurant.id
