-- ===== src/Kitchen.antt =====
-- qorder_api/api/kitchen_router.py: the board, the statuses of the items, cancelling, acknowledging.
pub mod Board
pub mod Isolation
use goi_mon.Prelude.{
  ℕ, String, Bool, true, false, ◌&&◌, Option, none, some, List, [], ◌∷◌, map, ◌==◌, if◌then◌else◌,
  Exec, ok, err, gets, pure, or_raise, raise, ◌>>=◌, ◌>>◌,
}
use goi_mon.Sql.{select, first}
use goi_mon.Sql.Keyed.{find}
use goi_mon.Model.{
  OrderItemStatus, pending, cooking, ready, CancelledBy, in_status, OrderItem, Order, StaffCall, Db,
  order_key,
}
use goi_mon.Items.{
  ItemError, invalid_transition, conflict, set_status, cancel_item, compute_overdue_level,
}
use goi_mon.Calls.{CallError, ack}
use goi_mon.Sessions.{no_row}
use goi_mon.Realtime.{World, on_db, announce, EventType, Payload}
use goi_mon.Http.{
  HttpError, unknown_item, bad_transition, item_conflict, unknown_call, unhandled, rescue,
}
use goi_mon.Auth.{TokenPayload, Security, staff_user}
use goi_mon.Customer.Menu.{order_by}
use goi_mon.Customer.Visits.{cancel_error, announce_cancel, requested_order}

abbrev pub active_statuses : List OrderItemStatus
active_statuses = pending ∷ cooking ∷ ready ∷ []

pub record BoardItem : Type 0 where
  pub item : OrderItem
  pub overdue_level : Option ℕ

unfoldable pub board_item : ℕ → OrderItem → BoardItem
unfolding compute_overdue_level
board_item clock x = record {
  item = x;
  overdue_level = compute_overdue_level x.prep_time_snapshot x.requested_at clock;
}

unfoldable pub on_board : ℕ → OrderItem → Bool
on_board restaurant_id x = x.restaurant_id == restaurant_id && in_status active_statuses x.status

unfoldable pub get_kitchen_board : ℕ → TokenPayload → Exec World HttpError (List BoardItem)
unfolding select order_by on_board board_item
get_kitchen_board clock user = gets λ w.
    map (board_item clock)
      (order_by requested_order (select (on_board user.restaurant_id) w.db.items))

-- The check before each write: the item exists and belongs to the user's restaurant.
unfoldable pub find_tenant_item : ℕ → ℕ → Db → Option OrderItem
unfolding select first
find_tenant_item item_id restaurant_id db =
    first (select (λ x. x.id == item_id && x.restaurant_id == restaurant_id) db.items)

abbrev pub set_error : ItemError → HttpError
set_error invalid_transition = bad_transition
set_error conflict = item_conflict

-- SELECT table_session_id FROM orders WHERE id = :order_id, exactly one row
unfoldable pub session_of_order : ℕ → Exec World HttpError ℕ
unfolding find
session_of_order order_id = do
  found ← gets (λ w. find order_key order_id w.db.orders)
  o ← or_raise found (unhandled no_row)
  pure o.table_session_id

unfoldable pub announce_update : ℕ → ℕ → OrderItem → Exec World HttpError OrderItem
unfolding announce
announce_update restaurant_id session_id x w = (
  ok x,
  announce restaurant_id session_id EventType.item_updated (Payload.item x.id x.status x.order_id)
      w,
)

unfoldable pub set_item_status :
    ℕ → ℕ → OrderItemStatus → TokenPayload → Exec World HttpError OrderItem
unfolding find_tenant_item set_status session_of_order announce_update
set_item_status now item_id to user = do
  found ← gets (λ w. find_tenant_item item_id user.restaurant_id w.db)
  own ← or_raise found unknown_item
  updated ← rescue set_error (on_db (set_status now item_id to (some user.sub) user.restaurant_id))
  session_id ← session_of_order updated.order_id
  announce_update user.restaurant_id session_id updated

unfoldable pub cancel_item_staff :
    ℕ → ℕ → Option String → TokenPayload → Exec World HttpError OrderItem
unfolding find_tenant_item cancel_item session_of_order announce_cancel
cancel_item_staff now item_id reason user = do
  found ← gets (λ w. find_tenant_item item_id user.restaurant_id w.db)
  own ← or_raise found unknown_item
  updated ←
      rescue cancel_error (
        on_db (cancel_item now item_id CancelledBy.staff user.restaurant_id active_statuses reason))
  session_id ← session_of_order updated.order_id
  announce_cancel user.restaurant_id session_id CancelledBy.staff (some updated.order_id) updated

abbrev pub ack_error : CallError → HttpError
ack_error e = unknown_call

unfoldable pub ack_staff_call : ℕ → ℕ → TokenPayload → Exec World HttpError StaffCall
unfolding ack
ack_staff_call clock call_id user = rescue ack_error (ack clock call_id user.sub user.restaurant_id)
