-- ===== src/Sessions/Checkout.antt =====
-- `SessionService.checkout` of qorder_api/services/session_service.py.
pub mod Bills
use goi_mon.Prelude.{ℕ, Bool, ◌&&◌, Option, none, some, ◌==◌, Exec, ok, pure, ◌>>=◌}
use goi_mon.Sql.{update, returning, first}
use goi_mon.Model.{closed, is_open, TableSession, Db}
use goi_mon.Sessions.{SessionError, CheckoutResult, settle}

-- UPDATE table_sessions ... RETURNING *, first row
unfoldable pub update_session :
    {E : Type 0}
    → (TableSession → Bool)
    → (TableSession → TableSession)
    → Exec Db E (Option TableSession)
unfolding update returning first
update_session p f db =
    (ok (first (returning p f db.sessions)), record db { sessions = update p f db.sessions })

unfoldable pub may_close : ℕ → ℕ → TableSession → Bool
may_close session_id restaurant_id s =
    s.id == session_id && (s.restaurant_id == restaurant_id && is_open s.status)

unfoldable pub close_row : ℕ → TableSession → TableSession
close_row now s = record s { status = closed; closed_at = some now }

-- No row: the session was closed or abandoned before, a soft failure.
unfoldable pub after_close :
    ℕ → ℕ → ℕ → Option TableSession → Exec Db SessionError (Option CheckoutResult)
after_close now session_id restaurant_id none = pure none
after_close now session_id restaurant_id (some row) = do
  result ← settle now session_id restaurant_id
  pure (some result)

unfoldable pub checkout : ℕ → ℕ → ℕ → Exec Db SessionError (Option CheckoutResult)
unfolding update_session may_close close_row after_close
checkout now session_id restaurant_id = do
  closed_row ← update_session (may_close session_id restaurant_id) (close_row now)
  after_close now session_id restaurant_id closed_row
