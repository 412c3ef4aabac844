-- ===== src/StaffTables/Answers.antt =====
-- What the cashier is answered, and what the others are told.
use goi_mon.Prelude.{
  ℕ, ◌≡◌, ◌≢◌, ◌∙◌, ap, Option, none, some, arith, ◌==◌, Result, ok, err, ==_refl, Exec, or_raise,
  ◌>>=◌, >>=-ok, or_raise-some,
}
use goi_mon.Sql.Keyed.{first-select, kept, IsKeyed}
use goi_mon.Model.{Db, TableSession, opened, find_session, session_key}
use goi_mon.Realtime.{World, Event, EventType, Payload, Channel, on_db}
use goi_mon.Http.{HttpError, checkout_conflict, unknown_session, unhandled, rescue}
use goi_mon.Auth.{TokenPayload}
use goi_mon.Sessions.{CheckoutResult, SessionError}
use goi_mon.Sessions.Checkout.{checkout}
use goi_mon.Sessions.Checkout.Bills.{checkout_soft}
use goi_mon.StaffTables.{find_tenant_session, checkout_session, answer_checkout}

-- The world once the database has settled the session.
abbrev pub paid : ℕ → ℕ → TokenPayload → World → World
paid now sid user w = record w { db = (checkout now sid user.restaurant_id w.db).1 }

-- The event that a session was closed with its bill.
abbrev pub closed_event : Channel → ℕ → CheckoutResult → Event
closed_event channel seq r = record {
  channel = channel;
  type = EventType.session_closed;
  seq = seq;
  payload =
      Payload.closed_session r.session.id r.session.table_id r.total_amount r.session.closed_at;
}

module _ (now sid : ℕ) (user : TokenPayload) (w : World)
    (keyed : IsKeyed session_key w.db.sessions) where
  tenant_session :
      find_tenant_session sid user.restaurant_id w.db
      ≡ kept session_key (λ s. s.restaurant_id == user.restaurant_id) (find_session sid w.db)
  unfolding find_tenant_session
  tenant_session =
      first-select session_key sid (λ s. s.restaurant_id == user.restaurant_id) w.db.sessions keyed

  -- A session that is not there, or not of the own restaurant, is a 404.
  pub checkout_session_unknown :
      kept session_key (λ s. s.restaurant_id == user.restaurant_id) (find_session sid w.db) ≡ none
      → checkout_session now sid user w ≡ (err unknown_session, w)
  unfolding checkout_session
  checkout_session_unknown e = rw (tenant_session, e)

  module _ (s : TableSession) (e : find_session sid w.db ≡ some s)
      (own : s.restaurant_id ≡ user.restaurant_id) where
    found : find_tenant_session sid user.restaurant_id w.db ≡ some s
    found = tenant_session ∙ rw (e, own, ==_refl user.restaurant_id)

    run_checkout : Exec World HttpError (Option CheckoutResult)
    run_checkout = rescue unhandled (on_db (checkout now sid user.restaurant_id))

    run_found :
        checkout_session now sid user w
        ≡ (run_checkout >>= λ outcome.
              or_raise outcome checkout_conflict >>= answer_checkout user.restaurant_id sid)
            w
    unfolding checkout_session run_checkout
    run_found =
        or_raise-some
          (λ _. run_checkout >>= λ outcome.
            or_raise outcome checkout_conflict >>= answer_checkout user.restaurant_id sid)
          unknown_session w (find_tenant_session sid user.restaurant_id w.db) s found

    run_paid :
        (o : Option CheckoutResult)
        → (checkout now sid user.restaurant_id w.db).0 ≡ ok o
        → run_checkout w ≡ (ok o, (paid now sid user w))
    unfolding run_checkout
    run_paid o h =
        ap
          (λ (q : Result SessionError (Option CheckoutResult)).
            elim q as (λ _. Result HttpError (Option CheckoutResult) × World) [
              | ok a ↦ (ok a, (paid now sid user w))
              | err x ↦ (err (unhandled x), (paid now sid user w))
            ])
          h

    -- A session that was closed or abandoned before is a 409, and nothing is written or announced.
    pub checkout_session_conflict :
        s.status ≢ opened → checkout_session now sid user w ≡ (err checkout_conflict, w)
    checkout_session_conflict ne =
        let soft = checkout_soft now sid user.restaurant_id w.db keyed (rw e (ground arith)) in
        run_found
        ∙ >>=-ok run_checkout
            (λ outcome.
              or_raise outcome checkout_conflict >>= answer_checkout user.restaurant_id sid)
            w none (paid now sid user w) (run_paid none (ap (λ t. t.0) soft))
        ∙ ap (λ (d : Db). (err checkout_conflict, record w { db = d })) (ap (λ t. t.1) soft)
