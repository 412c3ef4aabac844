-- ===== src/Sessions/Checkout/Bills.antt =====
-- What a checkout does, on every branch.
use goi_mon.Prelude.{ℕ, ◌≡◌, ◌∙◌, ap, Bool, true, ◌&&◌, none, some, ◌==◌, ok, pure, >>=-ok, ==_refl}
use goi_mon.Sql.Keyed.{IsKeyed, map_found}
use goi_mon.Model.{TableSession, Db, find_session, session_key, opened, is_open}
use goi_mon.Sessions.{settle, CheckoutResult}
use goi_mon.Sessions.Settle.{settled, settled_result, settle_lem}
use goi_mon.Sessions.Checkout.{close_row, after_close, checkout}
use goi_mon.Sessions.Closing.{
  IsSettled, closing, candidate, closed_row, closing-none, found_closed, settled-IsSettled,
}

-- The test of the query after `id = :session_id`.
abbrev pub own_open : ℕ → TableSession → Bool
own_open rid s = s.restaurant_id == rid && is_open s.status

module _ (now sid rid : ℕ) (row : TableSession) (db : Db) where
  after_close-some :
      (r : CheckoutResult) (db' : Db)
      → settle now sid rid db ≡ (ok r, db')
      → after_close now sid rid (some row) db ≡ (ok (some r), db')
  unfolding after_close
  after_close-some r db' h = >>=-ok (settle now sid rid) (λ result. pure (some result)) db r db' h

module _ (now sid rid : ℕ) (db : Db) (keyed : IsKeyed session_key db.sessions) where
  abbrev shut : Db
  shut = closing (own_open rid) now sid rid db

  -- A session that is not there, not open or not of this restaurant is left alone.
  pub checkout_soft :
      candidate (own_open rid) now sid rid db ≡ none → checkout now sid rid db ≡ (ok none, db)
  unfolding checkout
  checkout_soft h =
      ap (λ o. after_close now sid rid o shut)
        (closed_row (own_open rid) now sid rid db keyed
          ∙ ap (map_found session_key (close_row now)) h)
      ∙ ap (λ (d : Db). (ok none, d)) (closing-none (own_open rid) now sid rid db keyed h)

  module _ (s : TableSession) (e : find_session sid db ≡ some s)
      (pass : own_open rid s ≡ true) where
    picked : candidate (own_open rid) now sid rid db ≡ some s
    picked = rw (e, pass)

    pub checkout_lem :
        checkout now sid rid db
        ≡ (ok (some (settled_result now sid rid shut (close_row now s))), settled now sid rid shut)
    unfolding checkout
    checkout_lem =
        ap (λ o. after_close now sid rid o shut)
          (closed_row (own_open rid) now sid rid db keyed
            ∙ ap (map_found session_key (close_row now)) picked)
        ∙ after_close-some now sid rid (close_row now s) shut
            (settled_result now sid rid shut (close_row now s)) (settled now sid rid shut)
            (settle_lem now sid rid shut (close_row now s)
              (found_closed (own_open rid) now sid rid db s e pass))

  -- On a database with unique session ids, the checkout of an open session of the caller's
  -- restaurant succeeds. The session is stored as closed with its total frozen; the total is the
  -- sum of price times quantity over the items that were served, and still is afterwards; exactly
  -- the unserved items are reported and none is left unserved; the pending calls are counted and
  -- none is left pending; no other session changes.
  pub checkout-IsSettled :
      (s : TableSession)
      → find_session sid db ≡ some s
      → s.restaurant_id ≡ rid
      → s.status ≡ opened
      → (r : CheckoutResult) × ((checkout now sid rid db).0 ≡ ok (some r))
        × IsSettled sid rid db (checkout now sid rid db).1 r
  checkout-IsSettled s e own up =
      let pass : own_open rid s ≡ true = rw (own, up, ==_refl rid) in
      (
        settled_result now sid rid shut (close_row now s),
        ap (λ t. t.0) (checkout_lem s e pass),
        rw (checkout_lem s e pass) (settled-IsSettled (own_open rid) now sid rid db s e pass),
      )
