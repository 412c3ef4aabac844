-- ===== src/Sessions/Closing.antt =====
-- Closing one session by compare-and-swap and settling it, for any test `q` on the session's row:
-- `checkout` tests for an open session, the direct checkout of `restore` for an abandoned one.
use goi_mon.Prelude.{
  ℕ, ◌≡◌, ◌≢◌, refl, ◌∙◌, ap, sym, Bool, true, ◌&&◌, Option, none, some, List, [], map, length,
  arith, ◌==◌, eq_of_==, sum_of,
}
use goi_mon.Sql.{select, update, first, returning}
use goi_mon.Sql.Rows.{update-none, select-update_self}
use goi_mon.Sql.Keyed.{
  find-key, IsKeyed, find-update, find-update_other, first-select, map_found, kept,
}
use goi_mon.Model.{TableSession, Db, find_session, session_key, closed}
use goi_mon.Sessions.{
  to_cancel, to_bill, served_total, price_of, set_total, cancelled_item, CheckoutResult,
}
use goi_mon.Sessions.Settle.{settled, settled_result, found_total, bill_kept, none_to_cancel}
use goi_mon.Calls.{dismiss_row, is_dismissed}
use goi_mon.Sessions.Checkout.{close_row}

module _ (p : TableSession → Bool) (f : TableSession → TableSession) where
  first-map : (ys : List TableSession) → first (map f ys) ≡ map_found session_key f (first ys)
  unfolding first
  first-map ys = ground arith

  -- The row that an update of sessions hands back.
  pub first-returning :
      (xs : List TableSession)
      → first (returning p f xs) ≡ map_found session_key f (first (select p xs))
  unfolding returning
  first-returning xs = first-map (select p xs)

-- What a successful checkout of session `sid` has done, by the database before and after.
pub record IsSettled (sid rid : ℕ) (db db' : Db) (r : CheckoutResult) : Type 0 where
  pub is_closed : r.session.status ≡ closed
  pub stored : find_session sid db' ≡ some r.session
  pub total_frozen : r.session.total_amount ≡ some r.total_amount
  pub billed_before : r.total_amount ≡ served_total sid db
  pub billed_after : r.total_amount ≡ served_total sid db'
  pub reported : r.auto_cancelled_items ≡ map cancelled_item (select (to_cancel sid db) db.items)
  pub none_left : select (to_cancel sid db') db'.items ≡ []
  pub calls_counted : r.dismissed_calls_count ≡ length (select (is_dismissed sid rid) db.calls)
  pub none_waiting : select (is_dismissed sid rid) db'.calls ≡ []
  pub others_kept : (j : ℕ) → j ≢ sid → find_session j db' ≡ find_session j db

module _ (q : TableSession → Bool) (now sid rid : ℕ) (db : Db) where
  abbrev pub at_session : TableSession → Bool
  at_session s = s.id == sid && q s

  -- The database once the session is closed.
  abbrev pub closing : Db
  closing = record db { sessions = update at_session (close_row now) db.sessions }

  -- The row to close, if any.
  abbrev pub candidate : Option TableSession
  candidate = kept session_key q (find_session sid db)

  -- What the UPDATE hands back.
  pub closed_row :
      IsKeyed session_key db.sessions
      → first (returning at_session (close_row now) db.sessions)
        ≡ map_found session_key (close_row now) candidate
  closed_row keyed =
      first-returning at_session (close_row now) db.sessions
      ∙ ap (map_found session_key (close_row now))
          (first-select session_key sid q db.sessions keyed)

  -- Without a candidate the UPDATE changes nothing.
  pub closing-none : IsKeyed session_key db.sessions → candidate ≡ none → closing ≡ db
  closing-none keyed h =
      ap (λ (rows : List TableSession). record db { sessions = rows })
        (update-none at_session (close_row now) db.sessions
          (first-select session_key sid q db.sessions keyed ∙ h))

  module _ (s : TableSession) (e : find_session sid db ≡ some s) (pass : q s ≡ true) where
    pub found_closed : find_session sid closing ≡ some (close_row now s)
    unfolding close_row
    found_closed =
        rw (find-update session_key sid at_session (close_row now) db.sessions (λ x. refl), e)
          (ground (arith, find-key session_key sid db.sessions s e))

    -- Closing and billing one session moves no other.
    sessions_ne :
        (j : ℕ) → j ≢ sid → find_session j (settled now sid rid closing) ≡ find_session j db
    unfolding close_row
    sessions_ne j ne =
        find-update_other session_key sid j (λ s. s.id == sid)
          (set_total (served_total sid closing)) closing.sessions (λ x. refl)
          (λ x h. eq_of_== x.id sid h) ne
        ∙ find-update_other session_key sid j at_session (close_row now) db.sessions (λ x. refl)
            (λ x h. ground arith) ne

    pub settled-IsSettled :
        IsSettled sid rid db
          (settled now sid rid closing)
          (settled_result now sid rid closing (close_row now s))
    unfolding close_row served_total to_bill to_cancel is_dismissed
    settled-IsSettled = record {
      is_closed = refl;
      stored = found_total now sid rid closing (close_row now s) found_closed;
      total_frozen = refl;
      billed_before = refl;
      billed_after = sym (ap (sum_of price_of) (bill_kept now sid "table_closed" db));
      reported = refl;
      none_left = none_to_cancel now sid "table_closed" db;
      calls_counted = refl;
      none_waiting =
          select-update_self (is_dismissed sid rid) (is_dismissed sid rid) (dismiss_row now)
            db.calls (λ x h. ground arith) (λ x h. h);
      others_kept = sessions_ne;
    }
