-- ===== src/Sessions/Restore/Outcomes.antt =====
-- The paths of `restore`, each under its conditions.
use goi_mon.Prelude.{
  ℕ, ◌+◌, ◌*◌, ◌≤◌, ◌<◌, ◌≡◌, ◌≢◌, ◌∙◌, ap, Bool, true, ◌&&◌, Option, none, some, arith, ◌==◌, ok,
  err, pure, >>=-ok, ==_refl,
}
use goi_mon.Sql.{update, first, select}
use goi_mon.Sql.Keyed.{IsKeyed, map_found, kept, first-select}
use goi_mon.Model.{TableSession, Db, find_session, session_key, abandoned, is_abandoned, hour}
use goi_mon.Sessions.{
  settle, CheckoutResult, not_abandoned, too_old, changed_meanwhile, integrity_error,
  find_open_session,
}
use goi_mon.Sessions.Settle.{settled, settled_result, settle_lem}
use goi_mon.Sessions.Checkout.{close_row}
use goi_mon.Sessions.Closing.{closing, candidate, closed_row, closing-none, found_closed}
use goi_mon.Sessions.Restore.{
  may_restore, reopen_row, restored_result, checked_out_result, reopen_found, reopen,
  after_direct_close, direct_checkout, restore_path, restore_row, restore,
}

-- The test of the two UPDATEs after `id = :session_id`.
abbrev pub own_abandoned : ℕ → TableSession → Bool
own_abandoned rid s = s.restaurant_id == rid && is_abandoned s.status

module _ (now sid rid : ℕ) (row : TableSession) (db : Db) where
  after_direct_close-some :
      (r : CheckoutResult) (db' : Db)
      → settle now sid rid db ≡ (ok r, db')
      → after_direct_close now sid rid (some row) db ≡ (ok (some (checked_out_result r)), db')
  unfolding after_direct_close
  after_direct_close-some r db' h =
      >>=-ok (settle now sid rid) (λ result. pure (some (checked_out_result result))) db r db' h

module _ (now sid rid : ℕ) (db : Db) (keyed : IsKeyed session_key db.sessions) where
  abbrev shut : Db
  shut = closing (own_abandoned rid) now sid rid db

  abbrev pub left : Option TableSession
  left = candidate (own_abandoned rid) now sid rid db

  picked :
      (s : TableSession) → find_session sid db ≡ some s → own_abandoned rid s ≡ true → left ≡ some s
  picked s e pass = rw (e, pass)

  -- Somebody else changed the session: nothing is written.
  pub direct_checkout_lost :
      left ≡ none → direct_checkout now sid rid db ≡ (err changed_meanwhile, db)
  unfolding direct_checkout
  direct_checkout_lost h =
      ap (λ o. after_direct_close now sid rid o shut)
        (closed_row (own_abandoned rid) now sid rid db keyed
          ∙ ap (map_found session_key (close_row now)) h)
      ∙ ap (λ (d : Db). (err changed_meanwhile, d))
          (closing-none (own_abandoned rid) now sid rid db keyed h)

  pub direct_checkout_lem :
      (s : TableSession) (e : find_session sid db ≡ some s) (pass : own_abandoned rid s ≡ true)
      → direct_checkout now sid rid db ≡ (
        ok (some (checked_out_result (settled_result now sid rid shut (close_row now s)))),
        settled now sid rid shut,
      )
  unfolding direct_checkout
  direct_checkout_lem s e pass =
      ap (λ o. after_direct_close now sid rid o shut)
        (closed_row (own_abandoned rid) now sid rid db keyed
          ∙ ap (map_found session_key (close_row now)) (picked s e pass))
      ∙ after_direct_close-some now sid rid (close_row now s) shut
          (settled_result now sid rid shut (close_row now s)) (settled now sid rid shut)
          (settle_lem now sid rid shut (close_row now s)
            (found_closed (own_abandoned rid) now sid rid db s e pass))

  selected : first (select (may_restore sid rid) db.sessions) ≡ left
  unfolding may_restore
  selected = first-select session_key sid (own_abandoned rid) db.sessions keyed

  abbrev pub reopened : Db
  reopened = record db { sessions = update (may_restore sid rid) (reopen_row now) db.sessions }

  pub reopen_lost : left ≡ none → reopen now sid rid db ≡ (err changed_meanwhile, db)
  unfolding reopen
  reopen_lost h = rw (selected, h)

  pub reopen_lem :
      (s : TableSession)
      → find_session sid db ≡ some s
      → own_abandoned rid s ≡ true
      → find_open_session s.table_id db ≡ none
      → reopen now sid rid db ≡ (ok (some (restored_result (reopen_row now s))), reopened)
  unfolding reopen
  reopen_lem s e pass free =
      ap (λ o. reopen_found now sid rid o db) (selected ∙ picked s e pass) ∙ rw (free, reopen_found)

  -- The race that the code does not expect: the UPDATE meets the unique index.
  pub reopen_refused :
      (s o : TableSession)
      → find_session sid db ≡ some s
      → own_abandoned rid s ≡ true
      → find_open_session s.table_id db ≡ some o
      → reopen now sid rid db ≡ (err integrity_error, db)
  unfolding reopen
  reopen_refused s o e pass taken =
      ap (λ t. reopen_found now sid rid t db) (selected ∙ picked s e pass)
      ∙ rw (taken, reopen_found)

module _ (meanwhile : Db → Db) (now clock sid rid : ℕ) (db : Db)
    (keyed : IsKeyed session_key db.sessions) where
  -- The session that is read first.
  abbrev pub own : Option TableSession
  own = kept session_key (λ s. s.restaurant_id == rid) (find_session sid db)

  pub restore-row :
      restore meanwhile now clock sid rid db ≡ restore_row meanwhile now clock sid rid own db
  unfolding restore
  restore-row =
      ap (λ o. restore_row meanwhile now clock sid rid o db)
        (first-select session_key sid (λ s. s.restaurant_id == rid) db.sessions keyed)

  module _ (s : TableSession) (e : find_session sid db ≡ some s)
      (mine : s.restaurant_id ≡ rid) where
    own_lem : own ≡ some s
    own_lem = rw (e, mine, ==_refl rid)

    restore-own :
        restore meanwhile now clock sid rid db ≡ restore_row meanwhile now clock sid rid (some s) db
    restore-own = restore-row ∙ ap (λ o. restore_row meanwhile now clock sid rid o db) own_lem

    -- An abandoned session goes on to one of the two paths for a day.
    pub restore_in_time :
        (t : ℕ)
        → s.status ≡ abandoned
        → s.abandoned_at ≡ some t
        → clock ≤ t + 24 * hour
        → restore meanwhile now clock sid rid db
          ≡ restore_path (find_open_session s.table_id db) now sid rid (meanwhile db)
    restore_in_time t gone at le = restore-own ∙ step
      where
        step :
            restore_row meanwhile now clock sid rid (some s) db
            ≡ restore_path (find_open_session s.table_id db) now sid rid (meanwhile db)
        step = unfold restore_row in rw (gone, at) (ground arith)

    -- On a database with unique session ids, restoring a session of the restaurant that was
    -- abandoned more than 24 hours ago is refused as too old, and nothing is written.
    pub restore_late :
        (t : ℕ)
        → s.status ≡ abandoned
        → s.abandoned_at ≡ some t
        → t + 24 * hour < clock
        → restore meanwhile now clock sid rid db ≡ (err too_old, db)
    restore_late t gone at lt = restore-own ∙ step
      where
        step : restore_row meanwhile now clock sid rid (some s) db ≡ (err too_old, db)
        step = unfold restore_row in rw (gone, at) (ground arith)

    -- A session that is open or closed is refused.
    pub restore_other :
        s.status ≢ abandoned → restore meanwhile now clock sid rid db ≡ (err not_abandoned, db)
    restore_other ne = restore-own ∙ step
      where
        step : restore_row meanwhile now clock sid rid (some s) db ≡ (err not_abandoned, db)
        step = unfold restore_row in ground arith

    module _ (t : ℕ) (gone : s.status ≡ abandoned) (at : s.abandoned_at ≡ some t)
        (le : clock ≤ t + 24 * hour) (still : find_session sid (meanwhile db) ≡ some s)
        (keyed' : IsKeyed session_key (meanwhile db).sessions) where
      pass : own_abandoned rid s ≡ true
      pass = rw (mine, gone, ==_refl rid)
