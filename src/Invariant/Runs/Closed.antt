-- ===== src/Invariant/Runs/Closed.antt =====
-- Closed sessions under single updates and under qorder_api/services/session_service.py.
use goi_mon.Prelude.{
  ℕ, ◌≡◌, ◌≢◌, refl, sym, ◌∙◌, ap, Bool, true, false, Option, none, some, arith, Option-cases,
  Bool-cases, inl, inr,
}
use goi_mon.Sql.{update}
use goi_mon.Sql.Keyed.{find-update, kept-some}
use goi_mon.Model.{
  TableSession, closed, is_abandoned, Db, find_session, session_key, find_order, OrderItem,
}
use goi_mon.Items.{set_activity, order_session_is, touch_order_session}
use goi_mon.Items.Swap.{swap, swap_cases, written}
use goi_mon.Sessions.{find_open_session}
use goi_mon.Sessions.Closing.{candidate, settled-IsSettled}
use goi_mon.Sessions.Checkout.{checkout}
use goi_mon.Sessions.Checkout.Bills.{own_open, checkout_soft, checkout_lem}
use goi_mon.Invariant.{IsValid}
use goi_mon.Sessions.Restore.{
  may_restore, reopen_row, reopen, direct_checkout, restore_path, restore_found, restore_row,
  is_too_old,
}
use goi_mon.Sessions.Restore.Outcomes.{
  own_abandoned, direct_checkout_lost, direct_checkout_lem, reopen_lost, reopen_lem, reopen_refused,
  reopened,
}
use goi_mon.Invariant.Runs.{alone}

-- The session `k` is closed, with this total, since this time.
pub record IsClosed (k : ℕ) (total closed_at : Option ℕ) (db : Db) : Type 0 where
  pub session : TableSession
  pub found : find_session k db ≡ some session
  pub shut : session.status ≡ closed
  pub total_kept : session.total_amount ≡ total
  pub time_kept : session.closed_at ≡ closed_at

module _ (k : ℕ) (total time : Option ℕ) where
  -- An update that leaves alone what matters of a closed session.
  pub update-IsClosed :
      (p : TableSession → Bool) (f : TableSession → TableSession) (db db' : Db)
      → ((x : TableSession) → (f x).id ≡ x.id)
      → ((x : TableSession)
          → p x ≡ true
          → x.status ≡ closed
          → ((f x).status ≡ closed)
            × ((f x).total_amount ≡ x.total_amount)
            × ((f x).closed_at ≡ x.closed_at))
      → db'.sessions ≡ update p f db.sessions
      → IsClosed k total time db
      → IsClosed k total time db'
  update-IsClosed p f db db' ids keeps e c = elim (Bool-cases (p c.session)) [
    | inl hit ↦
        let (still, same_total, same_time) = keeps c.session hit c.shut in
        record {
          session = f c.session;
          found = rw (e, find-update session_key k p f db.sessions ids, c.found, hit);
          shut = still;
          total_kept = same_total ∙ c.total_kept;
          time_kept = same_time ∙ c.time_kept;
        }
    | inr miss ↦ record {
      session = c.session;
      found = rw (e, find-update session_key k p f db.sessions ids, c.found, miss);
      shut = c.shut;
      total_kept = c.total_kept;
      time_kept = c.time_kept;
    }
  ]

  -- So does anything that leaves the session as it is.
  pub same-IsClosed :
      (db db' : Db)
      → find_session k db' ≡ find_session k db
      → IsClosed k total time db
      → IsClosed k total time db'
  same-IsClosed db db' e c = record {
    session = c.session;
    found = e ∙ c.found;
    shut = c.shut;
    total_kept = c.total_kept;
    time_kept = c.time_kept;
  }

  pub swap-IsClosed :
      (now i : ℕ) (q : OrderItem → Bool) (f : OrderItem → OrderItem) (db : Db)
      → IsValid db
      → IsClosed k total time db
      → IsClosed k total time (swap now i q f db).1
  unfolding touch_order_session
  swap-IsClosed now i q f db v c = elim (swap_cases now i q f db v.items) [
    | inl (x, e, h, s) ↦ rw s (
        update-IsClosed (order_session_is (find_order (f x).order_id (written now i q f db)))
          (set_activity now) db (touch_order_session now (f x).order_id (written now i q f db))
          (λ y. refl) (λ y h u. (u, refl, refl)) refl c)
    | inr (n, s) ↦ rw s c
  ]

  -- A closed session is not the one that a test for another status has found.
  not_found :
      (q : TableSession → Bool) (sid : ℕ) (db : Db) (s : TableSession)
      → IsClosed k total time db
      → find_session sid db ≡ some s
      → q s ≡ true
      → ((x : TableSession) → x.status ≡ closed → q x ≡ false)
      → k ≢ sid
  not_found q sid db s c e pass never same =
      absurd
        (cc (sym c.found ∙ (ap (λ i. find_session i db) same ∙ e), never c.session c.shut, pass))

  pub checkout-IsClosed :
      (now sid rid : ℕ) (db : Db)
      → IsValid db
      → IsClosed k total time db
      → IsClosed k total time (checkout now sid rid db).1
  checkout-IsClosed now sid rid db v c =
      elim (Option-cases (candidate (own_open rid) now sid rid db)) [
        | inl lost ↦ rw (checkout_soft now sid rid db v.sessions.keyed lost) c
        | inr (s, h) ↦
            let (e, pass) = kept-some session_key (own_open rid) (find_session sid db) s h in
            rw (checkout_lem now sid rid db v.sessions.keyed s e pass) (
              same-IsClosed db _
                ((settled-IsSettled (own_open rid) now sid rid db s e pass).others_kept k
                  (not_found (own_open rid) sid db s c e pass (λ x u. rw u (ground arith))))
                c)
      ]

  direct_checkout-IsClosed :
      (now sid rid : ℕ) (db : Db)
      → IsValid db
      → IsClosed k total time db
      → IsClosed k total time (direct_checkout now sid rid db).1
  direct_checkout-IsClosed now sid rid db v c =
      elim (Option-cases (candidate (own_abandoned rid) now sid rid db)) [
        | inl lost ↦ rw (direct_checkout_lost now sid rid db v.sessions.keyed lost) c
        | inr (s, h) ↦
            let (e, pass) = kept-some session_key (own_abandoned rid) (find_session sid db) s h in
            rw (direct_checkout_lem now sid rid db v.sessions.keyed s e pass) (
              same-IsClosed db _
                ((settled-IsSettled (own_abandoned rid) now sid rid db s e pass).others_kept k
                  (not_found (own_abandoned rid) sid db s c e pass (λ x u. rw u (ground arith))))
                c)
      ]

  reopen-IsClosed :
      (now sid rid : ℕ) (db : Db)
      → IsValid db
      → IsClosed k total time db
      → IsClosed k total time (reopen now sid rid db).1
  unfolding may_restore reopen_row
  reopen-IsClosed now sid rid db v c =
      elim (Option-cases (candidate (own_abandoned rid) now sid rid db)) [
        | inl lost ↦ rw (reopen_lost now sid rid db v.sessions.keyed lost) c
        | inr (s, h) ↦
            let (e, pass) = kept-some session_key (own_abandoned rid) (find_session sid db) s h in
            elim (Option-cases (find_open_session s.table_id db)) [
              | inl free ↦ rw (reopen_lem now sid rid db v.sessions.keyed s e pass free) (
                  update-IsClosed (may_restore sid rid) (reopen_row now) db
                    (reopened now sid rid db v.sessions.keyed) (λ y. refl)
                    (λ y hit u. absurd (ground arith)) refl c)
              | inr (o, taken) ↦
                  rw (reopen_refused now sid rid db v.sessions.keyed s o e pass taken) c
            ]
      ]

  restore_path-IsClosed :
      (o : Option TableSession) (now sid rid : ℕ) (db : Db)
      → IsValid db
      → IsClosed k total time db
      → IsClosed k total time (restore_path o now sid rid db).1
  unfolding restore_path
  restore_path-IsClosed none now sid rid db v c = reopen-IsClosed now sid rid db v c
  restore_path-IsClosed (some o) now sid rid db v c = direct_checkout-IsClosed now sid rid db v c

  restore_found-IsClosed :
      (now clock sid rid : ℕ) (db : Db) (s : TableSession) (o : Option ℕ)
      → IsValid db
      → IsClosed k total time db
      → IsClosed k total time (restore_found alone now clock sid rid s o db).1
  unfolding restore_found
  restore_found-IsClosed now clock sid rid db s none v c = c
  restore_found-IsClosed now clock sid rid db s (some t) v c =
      elim (Bool-cases (is_too_old clock t)) [
        | inl old ↦ rw old c
        | inr young ↦
            rw young (restore_path-IsClosed (find_open_session s.table_id db) now sid rid db v c)
      ]

  pub restore_row-IsClosed :
      (now clock sid rid : ℕ) (db : Db) (o : Option TableSession)
      → IsValid db
      → IsClosed k total time db
      → IsClosed k total time (restore_row alone now clock sid rid o db).1
  unfolding restore_row
  restore_row-IsClosed now clock sid rid db none v c = c
  restore_row-IsClosed now clock sid rid db (some s) v c =
      elim (Bool-cases (is_abandoned s.status)) [
        | inl gone ↦ rw gone (restore_found-IsClosed now clock sid rid db s s.abandoned_at v c)
        | inr other ↦ rw other c
      ]
