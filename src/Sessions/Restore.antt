-- ===== src/Sessions/Restore.antt =====
-- `SessionService.restore` of qorder_api/services/session_service.py. `clock` is the server's
-- `datetime.now`, `now` the database's; `meanwhile` is what others commit before the UPDATE.
pub mod Outcomes
pub mod Cases
use goi_mon.Prelude.{
  ℕ, ◌+◌, ◌*◌, Bool, ◌&&◌, true, false, Option, none, some, List, [], ◌==◌, ltb, if◌then◌else◌,
  Exec, ok, err, pure, raise, ◌>>=◌,
}
use goi_mon.Sql.{select, first}
use goi_mon.Model.{opened, is_abandoned, TableSession, Db, hour}
use goi_mon.Sessions.{
  SessionError, not_abandoned, no_abandoned_at, too_old, changed_meanwhile, integrity_error, no_row,
  CancelledItem, CheckoutResult, settle, find_open_session,
}
use goi_mon.Sessions.Checkout.{update_session, close_row}

pub data Action : Type 0 where
  restored checked_out : Action

pub record RestoreResult : Type 0 where
  pub session : TableSession
  pub action : Action
  pub total_amount : Option ℕ
  pub auto_cancelled_items : List CancelledItem
  pub dismissed_calls_count : ℕ

unfoldable pub may_restore : ℕ → ℕ → TableSession → Bool
may_restore session_id restaurant_id s =
    s.id == session_id && (s.restaurant_id == restaurant_id && is_abandoned s.status)

unfoldable pub reopen_row : ℕ → TableSession → TableSession
reopen_row now s = record s { status = opened; abandoned_at = none; last_activity_at = now }

abbrev pub restored_result : TableSession → RestoreResult
restored_result s = record {
  session = s;
  action = restored;
  total_amount = none;
  auto_cancelled_items = [];
  dismissed_calls_count = 0;
}

abbrev pub checked_out_result : CheckoutResult → RestoreResult
checked_out_result r = record {
  session = r.session;
  action = checked_out;
  total_amount = some r.total_amount;
  auto_cancelled_items = r.auto_cancelled_items;
  dismissed_calls_count = r.dismissed_calls_count;
}

-- The row that the UPDATE would reopen: the unique index refuses it if its table has an open session.
unfoldable pub reopen_found :
    ℕ → ℕ → ℕ → Option TableSession → Exec Db SessionError (Option RestoreResult)
unfolding update_session find_open_session may_restore reopen_row
reopen_found now session_id restaurant_id none db = (err changed_meanwhile, db)
reopen_found now session_id restaurant_id (some row) db = elim (find_open_session row.table_id db) [
  | some other ↦ (err integrity_error, db)
  | none ↦
      let (_, db') =
        update_session {E = SessionError} (may_restore session_id restaurant_id) (reopen_row now)
          db in
      (ok (some (restored_result (reopen_row now row))), db')
]

-- Path A: the table has no open session, the session is opened again.
unfoldable pub reopen : ℕ → ℕ → ℕ → Exec Db SessionError (Option RestoreResult)
unfolding select first reopen_found
reopen now session_id restaurant_id db =
    reopen_found now session_id restaurant_id
      (first (select (may_restore session_id restaurant_id) db.sessions)) db

-- Path B: the table has an open session, the abandoned one is closed and billed.
unfoldable pub after_direct_close :
    ℕ → ℕ → ℕ → Option TableSession → Exec Db SessionError (Option RestoreResult)
after_direct_close now session_id restaurant_id none = raise changed_meanwhile
after_direct_close now session_id restaurant_id (some row) = do
  result ← settle now session_id restaurant_id
  pure (some (checked_out_result result))

unfoldable pub direct_checkout : ℕ → ℕ → ℕ → Exec Db SessionError (Option RestoreResult)
unfolding update_session may_restore close_row after_direct_close
direct_checkout now session_id restaurant_id = do
  closed_row ← update_session (may_restore session_id restaurant_id) (close_row now)
  after_direct_close now session_id restaurant_id closed_row

unfoldable pub restore_path :
    Option TableSession → ℕ → ℕ → ℕ → Exec Db SessionError (Option RestoreResult)
unfolding reopen direct_checkout
restore_path none now session_id restaurant_id = reopen now session_id restaurant_id
restore_path (some other) now session_id restaurant_id =
    direct_checkout now session_id restaurant_id

-- `(now - abandoned_at) > timedelta(hours=24)`
unfoldable pub is_too_old : ℕ → ℕ → Bool
is_too_old clock t = ltb (t + 24 * hour) clock

-- The checks on the session that was read, then one of the two paths.
unfoldable pub restore_found :
    (Db → Db)
    → ℕ
    → ℕ
    → ℕ
    → ℕ
    → TableSession
    → Option ℕ
    → Exec Db SessionError (Option RestoreResult)
unfolding find_open_session restore_path is_too_old
restore_found meanwhile now clock session_id restaurant_id s none db = (err no_abandoned_at, db)
restore_found meanwhile now clock session_id restaurant_id s (some t) db =
    if is_too_old clock t
    then (err too_old, db)
    else restore_path (find_open_session s.table_id db) now session_id restaurant_id (meanwhile db)

unfoldable pub restore_row :
    (Db → Db) → ℕ → ℕ → ℕ → ℕ → Option TableSession → Exec Db SessionError (Option RestoreResult)
unfolding restore_found
restore_row meanwhile now clock session_id restaurant_id none db = (ok none, db)
restore_row meanwhile now clock session_id restaurant_id (some s) db =
    if is_abandoned s.status
    then restore_found meanwhile now clock session_id restaurant_id s s.abandoned_at db
    else (err not_abandoned, db)

unfoldable pub restore : (Db → Db) → ℕ → ℕ → ℕ → ℕ → Exec Db SessionError (Option RestoreResult)
unfolding restore_row select first
restore meanwhile now clock session_id restaurant_id db =
    restore_row meanwhile now clock session_id restaurant_id
      (first (select (λ s. s.id == session_id && s.restaurant_id == restaurant_id) db.sessions)) db
