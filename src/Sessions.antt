-- ===== src/Sessions.antt =====
-- qorder_api/services/session_service.py: a table session is opened, checked out and restored.
-- `meanwhile` and `later` are what other transactions commit between two statements of the call.
pub mod Opening
pub mod Settle
pub mod Closing
pub mod Checkout
pub mod Restore
use goi_mon.Prelude.{
  ℕ, ◌+◌, ◌*◌, String, Bool, true, false, ◌&&◌, Option, none, some, List, [], ◌∷◌, ◌++◌, map, ◌==◌,
  ltb, sum_of, if◌then◌else◌, Exec, ok, err, pure, raise, or_raise, gets, ◌>>=◌, ◌||◌,
}
use goi_mon.Sql.{select, update, returning, first}
use goi_mon.Model.{
  OrderItemStatus, pending, cooking, ready, served, cancelled, CancelledBy, system, in_status,
  SessionStatus, opened, closed, abandoned, is_open, is_abandoned, Order, OrderItem, TableSession,
  Db, find_session, hour,
}
use goi_mon.Items.{cancel_row}
use goi_mon.Calls.{dismiss_pending}

pub data SessionError : Type 0 where
  race_recovery_failed not_abandoned no_abandoned_at too_old changed_meanwhile integrity_error
        no_row :
      SessionError

-- _find_open_session
unfoldable pub find_open_session : ℕ → Db → Option TableSession
unfolding select first
find_open_session table_id db =
    first (select (λ s. s.table_id == table_id && is_open s.status) db.sessions)

abbrev is_none : {A : Type 0} → Option A → Bool
is_none none = true
is_none (some _) = false

unfoldable pub new_session : ℕ → ℕ → ℕ → ℕ → Option ℕ → TableSession
new_session now session_id table_id restaurant_id opened_by = record {
  id = session_id;
  restaurant_id = restaurant_id;
  table_id = table_id;
  status = opened;
  opened_by = opened_by;
  opened_at = now;
  last_activity_at = now;
  closed_at = none;
  abandoned_at = none;
  total_amount = none;
}

-- INSERT of an open session, refused by the index uq_one_open_session_per_table if the table has one
unfoldable pub insert_session : TableSession → Db → Option Db
unfolding find_open_session
insert_session s db =
    if is_none (find_open_session s.table_id db)
    then some (record db { sessions = db.sessions ++ s ∷ [] })
    else none

-- After the rollback: the winner of the race is read back.
unfoldable pub read_winner : ℕ → Exec Db SessionError TableSession
unfolding find_open_session
read_winner table_id db = or_raise (find_open_session table_id db) race_recovery_failed db

unfoldable pub try_insert : (Db → Db) → TableSession → Exec Db SessionError TableSession
unfolding insert_session read_winner
try_insert later s db = elim (insert_session s db) [
  | some db' ↦ (ok s, db')
  | none ↦ read_winner s.table_id (later db)
]

unfoldable pub get_or_open :
    (Db → Db) → (Db → Db) → ℕ → ℕ → ℕ → ℕ → Option ℕ → Exec Db SessionError TableSession
unfolding find_open_session try_insert new_session
get_or_open meanwhile later now session_id table_id restaurant_id opened_by db =
    elim (find_open_session table_id db) [
      | some s ↦ (ok s, db)
      | none ↦
          try_insert later (new_session now session_id table_id restaurant_id opened_by)
            (meanwhile db)
    ]

-- order_id IN (SELECT id FROM orders WHERE table_session_id = :session_id)
unfoldable pub in_session : ℕ → List Order → OrderItem → Bool
in_session session_id [] x = false
in_session session_id (o ∷ os) x =
    (o.table_session_id == session_id && o.id == x.order_id) || in_session session_id os x

-- status IN ('pending', 'cooking', 'ready')
abbrev pub is_unserved : OrderItem → Bool
is_unserved x = in_status (pending ∷ cooking ∷ ready ∷ []) x.status

abbrev pub is_served : OrderItem → Bool
is_served x = in_status (served ∷ []) x.status

unfoldable pub to_cancel : ℕ → Db → OrderItem → Bool
unfolding in_session
to_cancel session_id db x = in_session session_id db.orders x && is_unserved x

unfoldable pub to_bill : ℕ → Db → OrderItem → Bool
unfolding in_session
to_bill session_id db x = in_session session_id db.orders x && is_served x

abbrev pub price_of : OrderItem → ℕ
price_of x = x.price_snapshot * x.quantity

-- SELECT COALESCE(SUM(price_snapshot * quantity), 0) over the served items of a session
unfoldable pub served_total : ℕ → Db → ℕ
unfolding select to_bill
served_total session_id db = sum_of price_of (select (to_bill session_id db) db.items)

pub record CancelledItem : Type 0 where
  pub id : ℕ
  pub name_snapshot : String
  pub quantity : ℕ
  pub status_before : OrderItemStatus

abbrev pub cancelled_item : OrderItem → CancelledItem
cancelled_item x = record {
  id = x.id;
  name_snapshot = x.name_snapshot;
  quantity = x.quantity;
  status_before = x.status;
}

-- The UPDATE is sent only if some item is to be cancelled.
unfoldable pub cancel_all : ℕ → ℕ → String → List OrderItem → Db → Db
unfolding update to_cancel cancel_row
cancel_all now session_id reason [] db = db
cancel_all now session_id reason (x ∷ xs) db = record db {
  items =
      update (to_cancel session_id db) (cancel_row now CancelledBy.system (some reason)) db.items;
}

abbrev pub set_total : ℕ → TableSession → TableSession
set_total total s = record s { total_amount = some total }

-- UPDATE table_sessions SET total_amount = :total_amount WHERE id = :session_id
unfoldable pub store_total : ℕ → ℕ → Db → Db
unfolding update
store_total session_id total db = record db {
  sessions = update (λ s. s.id == session_id) (set_total total) db.sessions;
}

pub record CheckoutResult : Type 0 where
  pub session : TableSession
  pub total_amount : ℕ
  pub auto_cancelled_items : List CancelledItem
  pub dismissed_calls_count : ℕ

-- Steps 2 to 8 of a checkout, once the session is closed: cancel what was not served, freeze the
-- total, dismiss the calls, read the session back.
unfoldable pub settle : ℕ → ℕ → ℕ → Exec Db SessionError CheckoutResult
unfolding select to_cancel cancel_all served_total store_total dismiss_pending
settle now session_id restaurant_id db =
    let doomed = select (to_cancel session_id db) db.items in
    let db₁ = cancel_all now session_id "table_closed" doomed db in
    let total = served_total session_id db₁ in
    let db₂ = store_total session_id total db₁ in
    let (dismissed, db₃) = dismiss_pending now session_id restaurant_id db₂ in
    (do
      final ← or_raise (find_session session_id db₃) no_row
      pure (record {
        session = final;
        total_amount = total;
        auto_cancelled_items = map cancelled_item doomed;
        dismissed_calls_count = dismissed;
      }))
      db₃
