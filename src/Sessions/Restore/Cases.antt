-- ===== src/Sessions/Restore/Cases.antt =====
-- Every outcome of `restore`, whatever other transactions commit before its UPDATE.
use goi_mon.Prelude.{ℕ, ◌+◌, ◌*◌, ◌≤◌, ◌<◌, ◌≡◌, ◌≢◌, Option, none, some, [], Result, ok, err}
use goi_mon.Model.{TableSession, Db, find_session, opened, abandoned, hour}
use goi_mon.Sessions.{
  SessionError, CheckoutResult, not_abandoned, no_abandoned_at, too_old, changed_meanwhile,
  integrity_error, find_open_session,
}
use goi_mon.Sessions.Closing.{IsSettled}
use goi_mon.Sessions.Restore.{RestoreResult, restored, checked_out_result}

-- What a session that was opened again looks like, and what else changed: nothing.
pub record IsReopened (now sid : ℕ) (s : TableSession) (db db' : Db) (r : RestoreResult)
    : Type 0 where
  pub row : r.session ≡ record s { status = opened; abandoned_at = none; last_activity_at = now }
  pub action : r.action ≡ restored
  pub unbilled : r.total_amount ≡ none
  pub nothing_cancelled : r.auto_cancelled_items ≡ []
  pub nothing_dismissed : r.dismissed_calls_count ≡ 0
  pub stored : find_session sid db' ≡ some r.session
  pub others_kept : (j : ℕ) → j ≢ sid → find_session j db' ≡ find_session j db
  pub rest_kept : db' ≡ record db { sessions = db'.sessions }

-- A session of the restaurant that is abandoned.
pub record IsLeft (sid rid : ℕ) (db : Db) (s : TableSession) : Type 0 where
  pub found : find_session sid db ≡ some s
  pub tenant : s.restaurant_id ≡ rid
  pub gone : s.status ≡ abandoned

module _ (meanwhile : Db → Db) (now clock sid rid : ℕ) (db : Db) where
  -- The session that the call read, and the time it may still be restored.
  pub record IsRead (s : TableSession) : Type 0 where
    pub left : IsLeft sid rid db s
    pub time : (t : ℕ) × (s.abandoned_at ≡ some t) × (clock ≤ t + 24 * hour)

  -- By what was found first, and by what is found when the UPDATE is sent.
  pub data IsRestored : Result SessionError (Option RestoreResult) × Db → Type 0 where
    unknown :
        ((s : TableSession) → find_session sid db ≡ some s → s.restaurant_id ≢ rid)
        → IsRestored (ok none, db)
    other :
        (s : TableSession)
        → find_session sid db ≡ some s
        → s.restaurant_id ≡ rid
        → s.status ≢ abandoned
        → IsRestored (err not_abandoned, db)
    undated :
        (s : TableSession)
        → IsLeft sid rid db s
        → s.abandoned_at ≡ none
        → IsRestored (err no_abandoned_at, db)
    late :
        (s : TableSession) (t : ℕ)
        → IsLeft sid rid db s
        → s.abandoned_at ≡ some t
        → t + 24 * hour < clock
        → IsRestored (err too_old, db)
    changed :
        (s : TableSession)
        → IsRead s
        → ((s' : TableSession) → ¬ IsLeft sid rid (meanwhile db) s')
        → IsRestored (err changed_meanwhile, meanwhile db)
    reopens :
        (s s' : TableSession) (r : RestoreResult) (db' : Db)
        → IsRead s
        → find_open_session s.table_id db ≡ none
        → IsLeft sid rid (meanwhile db) s'
        → find_open_session s'.table_id (meanwhile db) ≡ none
        → IsReopened now sid s' (meanwhile db) db' r
        → IsRestored (ok (some r), db')
    collides :
        (s s' o : TableSession)
        → IsRead s
        → find_open_session s.table_id db ≡ none
        → IsLeft sid rid (meanwhile db) s'
        → find_open_session s'.table_id (meanwhile db) ≡ some o
        → IsRestored (err integrity_error, meanwhile db)
    settles :
        (s s' o : TableSession) (r : CheckoutResult) (db' : Db)
        → IsRead s
        → find_open_session s.table_id db ≡ some o
        → IsLeft sid rid (meanwhile db) s'
        → IsSettled sid rid (meanwhile db) db' r
        → IsRestored (ok (some (checked_out_result r)), db')
