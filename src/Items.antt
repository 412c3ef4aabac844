-- ===== src/Items.antt =====
-- qorder_api/services/item_state_service.py: the status of an order item changes by
-- compare-and-swap, one `UPDATE ... WHERE status = ANY(allowed) RETURNING *` per call. `now` is the
-- database's `now()`, which is fixed within a transaction.
pub mod Swap
pub mod Diagram
pub mod Moves
pub mod Cancel
pub mod Overdue
pub mod Undo
use goi_mon.Prelude.{
  ℕ, zero, ◌+◌, ◌*◌, ◌-◌, String, Bool, true, false, ◌&&◌, Option, none, some, List, [], ◌∷◌, ◌==◌,
  ltb, leb, if◌then◌else◌, Exec, pure, gets, modify, or_raise, ◌>>=◌, ◌>>◌, Result, ok, err,
}
use goi_mon.Sql.{update, returning, first}
use goi_mon.Model.{
  OrderItemStatus, pending, cooking, ready, served, cancelled, CancelledBy, in_status, OrderItem,
  TableSession, Order, Db, find_order, second, minute,
}

pub data ItemError : Type 0 where
  invalid_transition conflict : ItemError

-- ALLOWED_FROM: target status, statuses that it may be reached from
unfoldable pub allowed_from : OrderItemStatus → Option (List OrderItemStatus)
allowed_from cooking = some (pending ∷ [])
allowed_from ready = some (pending ∷ cooking ∷ [])
allowed_from served = some (pending ∷ cooking ∷ ready ∷ [])
allowed_from pending = some (served ∷ [])
allowed_from cancelled = none

abbrev pub undo_window : ℕ
undo_window = 120 * second

-- served_at IS NOT NULL AND now() - served_at <= interval '120 seconds'
unfoldable pub within_undo : ℕ → Option ℕ → Bool
within_undo now none = false
within_undo now (some t) = leb (now - t) undo_window

-- The extra condition of the undo query.
unfoldable pub undo_guard : ℕ → OrderItemStatus → OrderItem → Bool
unfolding within_undo
undo_guard now pending x = within_undo now x.served_at
undo_guard now _ x = true

-- The WHERE clause of the three queries of `set_status`.
unfoldable pub may_set : ℕ → ℕ → OrderItemStatus → ℕ → List OrderItemStatus → OrderItem → Bool
unfolding undo_guard
may_set now item_id to_status restaurant_id allowed x =
    x.id == item_id
    && (x.restaurant_id == restaurant_id
        && (in_status allowed x.status && undo_guard now to_status x))

-- Their SET clauses.
unfoldable pub set_row : ℕ → OrderItemStatus → Option ℕ → OrderItem → OrderItem
set_row now pending actor x = record x { status = pending; served_by = none; served_at = none }
set_row now served actor x = record x { status = served; served_by = actor; served_at = some now }
set_row now to_status actor x = record x { status = to_status }

-- UPDATE order_items ... RETURNING *, first row
unfoldable pub update_item :
    {E : Type 0} → (OrderItem → Bool) → (OrderItem → OrderItem) → Exec Db E (Option OrderItem)
unfolding update returning first
update_item p f db =
    (ok (first (returning p f db.items)), record db { items = update p f db.items })

-- last_activity_at of the session that an order belongs to
abbrev pub order_session_is : Option Order → TableSession → Bool
order_session_is none s = false
order_session_is (some o) s = s.id == o.table_session_id

abbrev pub set_activity : ℕ → TableSession → TableSession
set_activity now s = record s { last_activity_at = now }

unfoldable pub touch_order_session : ℕ → ℕ → Db → Db
unfolding update
touch_order_session now order_id db = record db {
  sessions = update (order_session_is (find_order order_id db)) (set_activity now) db.sessions;
}

unfoldable pub row_to_order_item : OrderItem → OrderItem
row_to_order_item row = record {
  id = row.id;
  restaurant_id = row.restaurant_id;
  order_id = row.order_id;
  menu_item_id = row.menu_item_id;
  name_snapshot = row.name_snapshot;
  price_snapshot = row.price_snapshot;
  prep_time_snapshot = row.prep_time_snapshot;
  quantity = row.quantity;
  note = row.note;
  status = row.status;
  requested_at = row.requested_at;
  served_by = row.served_by;
  served_at = row.served_at;
  cancelled_by = row.cancelled_by;
  cancelled_at = row.cancelled_at;
  cancel_reason = row.cancel_reason;
}

-- What follows a compare-and-swap: no row is a conflict, a row bumps its session.
unfoldable pub after_cas : ℕ → Option OrderItem → Exec Db ItemError OrderItem
unfolding touch_order_session row_to_order_item
after_cas now found = do
  row ← or_raise found conflict
  modify (touch_order_session now row.order_id)
  pure (row_to_order_item row)

unfoldable pub set_status : ℕ → ℕ → OrderItemStatus → Option ℕ → ℕ → Exec Db ItemError OrderItem
unfolding update_item after_cas allowed_from set_row may_set
set_status now item_id to_status actor_user_id restaurant_id = do
  allowed ← or_raise (allowed_from to_status) invalid_transition
  found ←
      update_item (may_set now item_id to_status restaurant_id allowed)
        (set_row now to_status actor_user_id)
  after_cas now found

unfoldable pub may_cancel : ℕ → ℕ → List OrderItemStatus → OrderItem → Bool
may_cancel item_id restaurant_id allowed x =
    x.id == item_id && (x.restaurant_id == restaurant_id && in_status allowed x.status)

unfoldable pub cancel_row : ℕ → CancelledBy → Option String → OrderItem → OrderItem
cancel_row now who reason x = record x {
  status = cancelled;
  cancelled_by = some who;
  cancelled_at = some now;
  cancel_reason = reason;
}

unfoldable pub cancel_item :
    ℕ → ℕ → CancelledBy → ℕ → List OrderItemStatus → Option String → Exec Db ItemError OrderItem
unfolding update_item after_cas may_cancel cancel_row
cancel_item now item_id who restaurant_id allowed reason = do
  found ← update_item (may_cancel item_id restaurant_id allowed) (cancel_row now who reason)
  after_cas now found

-- elapsed / prep < num / den, cross-multiplied: the source divides seconds by 60.0 and by the
-- preparation time in minutes
abbrev pub ratio_below : ℕ → ℕ → ℕ → ℕ → Bool
ratio_below elapsed prep num den = ltb (den * elapsed) (num * (prep * minute))

unfoldable pub compute_overdue_level : ℕ → ℕ → ℕ → Option ℕ
compute_overdue_level prep_time_snapshot requested_at now =
    let elapsed = now - requested_at in
    if prep_time_snapshot == 0
    then none
    else if ratio_below elapsed prep_time_snapshot 1 1
    then some 0
    else if ratio_below elapsed prep_time_snapshot 3 2
    then some 1
    else if ratio_below elapsed prep_time_snapshot 2 1
    then some 2
    else some 3
