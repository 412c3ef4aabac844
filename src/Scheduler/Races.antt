-- ===== src/Scheduler/Races.antt =====
-- Races for one session: the cashier's checkout and the sweep of the scheduler compete for it by
-- compare-and-swap.
use goi_mon.Prelude.{ℕ, ◌≡◌, refl, false, none, some, ok, arith}
use goi_mon.Sql.Keyed.{find-update, find-key}
use goi_mon.Model.{Db, TableSession, opened, find_session, session_key}
use goi_mon.Sessions.Checkout.{checkout}
use goi_mon.Sessions.Checkout.Bills.{checkout_soft, checkout-IsSettled}
use goi_mon.Invariant.{IsValid}
use goi_mon.Invariant.Closing.{checkout-IsValid}
use goi_mon.Invariant.Items.{abandon_db-IsValid}
use goi_mon.Scheduler.{abandon_db, may_abandon, abandon_row}
use goi_mon.Scheduler.Sweep.{abandon_db_closed, sessions-abandon_db}

module _ (now now' sid rid rid' : ℕ) (db : Db) (v : IsValid db) (s : TableSession)
    (e : find_session sid db ≡ some s) (up : s.status ≡ opened) where
  -- In a valid database, after the checkout of an open session by its restaurant a second
  -- checkout of it, at any time and by any restaurant, is the soft failure and changes nothing.
  pub checkout-checkout :
      s.restaurant_id ≡ rid
      → checkout now' sid rid' (checkout now sid rid db).1 ≡ (ok none, (checkout now sid rid db).1)
  checkout-checkout own =
      let (r, answer, settled) = checkout-IsSettled now sid rid db v.sessions.keyed s e own up in
      checkout_soft now' sid rid' (checkout now sid rid db).1
        (checkout-IsValid now sid rid db v).sessions.keyed
        (rw (settled.stored, settled.is_closed) (ground arith))

  -- In a valid database, the sweep does not abandon a session that was checked out after the
  -- sweep had listed it: its compare-and-swap finds no row and nothing changes.
  pub abandon_db-checkout :
      s.restaurant_id ≡ rid
      → abandon_db now' sid rid' (checkout now sid rid db).1 ≡ (false, (checkout now sid rid db).1)
  abandon_db-checkout own =
      let (r, answer, settled) = checkout-IsSettled now sid rid db v.sessions.keyed s e own up in
      abandon_db_closed now' sid rid' (checkout now sid rid db).1 r.session
        (checkout-IsValid now sid rid db v).sessions.keyed settled.stored
        (ground (arith, settled.is_closed))

  found_abandoned : find_session sid (abandon_db now sid rid db).1 ≡ some (abandon_row now s)
  unfolding may_abandon abandon_row
  found_abandoned =
      rw
        (
          sessions-abandon_db now sid rid db,
          find-update session_key sid (may_abandon sid) (abandon_row now) db.sessions (λ x. refl),
          e,
          up,
        )
        (ground (arith, find-key session_key sid db.sessions s e))

  -- In a valid database, a checkout that comes after the sweep abandoned the session is the soft
  -- failure, and changes nothing.
  pub checkout-abandon_db :
      checkout now' sid rid' (abandon_db now sid rid db).1
      ≡ (ok none, (abandon_db now sid rid db).1)
  unfolding abandon_row
  checkout-abandon_db =
      checkout_soft now' sid rid' (abandon_db now sid rid db).1
        (abandon_db-IsValid now sid rid db v).sessions.keyed (rw found_abandoned (ground arith))
