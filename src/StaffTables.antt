-- ===== src/StaffTables.antt =====
-- qorder_api/api/staff_table_router.py: opening a table, checking a session out, restoring one.
pub mod Answers
use goi_mon.Prelude.{
  ℕ, String, Bool, true, false, ◌&&◌, Option, none, some, List, [], ◌∷◌, ◌==◌, if◌then◌else◌, Exec,
  ok, err, gets, pure, or_raise, raise, raise_if, ◌>>=◌, ◌>>◌, not,
}
use goi_mon.Sql.{select, first}
use goi_mon.Model.{Table, TableSession, Db}
use goi_mon.Sessions.{SessionError, no_row, CheckoutResult}
use goi_mon.Sessions.Checkout.{checkout}
use goi_mon.Sessions.Restore.{Action, restored, checked_out, RestoreResult, restore}
use goi_mon.Realtime.{World, on_db, announce, EventType, Payload}
use goi_mon.Http.{
  HttpError, unknown_table, table_inactive, unknown_session, checkout_conflict, restore_refused,
  unhandled, Env, open_session, rescue,
}
use goi_mon.Auth.{TokenPayload}

unfoldable pub find_tenant_table : ℕ → ℕ → Db → Option Table
unfolding select first
find_tenant_table table_id restaurant_id db =
    first (select (λ t. t.id == table_id && t.restaurant_id == restaurant_id) db.tables)

unfoldable pub open_table : Env → ℕ → TokenPayload → Exec World HttpError TableSession
unfolding find_tenant_table open_session
open_table env table_id user = do
  found ← gets (λ w. find_tenant_table table_id user.restaurant_id w.db)
  table ← or_raise found unknown_table
  raise_if (not table.is_active) table_inactive
  open_session env table.id user.restaurant_id (some user.sub)

unfoldable pub find_tenant_session : ℕ → ℕ → Db → Option TableSession
unfolding select first
find_tenant_session session_id restaurant_id db =
    first (select (λ s. s.id == session_id && s.restaurant_id == restaurant_id) db.sessions)

unfoldable pub announce_closed : ℕ → ℕ → TableSession → ℕ → World → World
unfolding announce
announce_closed restaurant_id session_id s total w =
    announce restaurant_id session_id EventType.session_closed
      (Payload.closed_session s.id s.table_id total s.closed_at) w

unfoldable pub answer_checkout : ℕ → ℕ → CheckoutResult → Exec World HttpError CheckoutResult
unfolding announce_closed
answer_checkout restaurant_id session_id r w =
    (ok r, announce_closed restaurant_id session_id r.session r.total_amount w)

unfoldable pub checkout_session : ℕ → ℕ → TokenPayload → Exec World HttpError CheckoutResult
unfolding find_tenant_session answer_checkout
checkout_session now session_id user = do
  found ← gets (λ w. find_tenant_session session_id user.restaurant_id w.db)
  own ← or_raise found unknown_session
  outcome ← rescue unhandled (on_db (checkout now session_id user.restaurant_id))
  result ← or_raise outcome checkout_conflict
  answer_checkout user.restaurant_id session_id result

-- `except ValueError`: the business errors are a 400, a database error is not caught.
abbrev pub restore_error : SessionError → HttpError
restore_error SessionError.not_abandoned = restore_refused
restore_error SessionError.no_abandoned_at = restore_refused
restore_error SessionError.too_old = restore_refused
restore_error SessionError.changed_meanwhile = restore_refused
restore_error e = unhandled e

abbrev amount_of : Option ℕ → ℕ
amount_of none = 0
amount_of (some n) = n

unfoldable pub announce_restore : Action → ℕ → ℕ → RestoreResult → World → World
unfolding announce announce_closed
announce_restore restored restaurant_id session_id r w =
    announce restaurant_id session_id EventType.session_restored
      (Payload.restored_session r.session.id r.session.table_id) w
announce_restore checked_out restaurant_id session_id r w =
    announce_closed restaurant_id session_id r.session (amount_of r.total_amount) w

unfoldable pub answer_restore : ℕ → ℕ → RestoreResult → Exec World HttpError RestoreResult
unfolding announce_restore
answer_restore restaurant_id session_id r w =
    (ok r, announce_restore r.action restaurant_id session_id r w)

unfoldable pub restore_session : Env → ℕ → TokenPayload → Exec World HttpError RestoreResult
unfolding restore answer_restore
restore_session env session_id user = do
  outcome ←
      rescue restore_error
        (on_db (restore env.meanwhile env.now env.clock session_id user.restaurant_id))
  result ← or_raise outcome unknown_session
  answer_restore user.restaurant_id session_id result
