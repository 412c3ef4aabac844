-- ===== src/Sessions/Settle.antt =====
-- What `settle`, the part that a checkout and a direct checkout share, leaves behind.
use goi_mon.Prelude.{
  ℕ, ◌≡◌, refl, ap, String, some, List, [], ◌∷◌, map, length, arith, ◌==◌, ok, sum_of, sym,
}
use goi_mon.Sql.{select, update, first}
use goi_mon.Sql.Rows.{update-none, select-update_disjoint, select-update_self}
use goi_mon.Sql.Keyed.{find, find-key, find-update}
use goi_mon.Model.{OrderItem, TableSession, Db, find_session, session_key, system}
use goi_mon.Items.{cancel_row}
use goi_mon.Calls.{dismiss_pending, is_dismissed, dismiss_row}
use goi_mon.Sessions.{
  to_cancel, to_bill, served_total, cancel_all, store_total, set_total, settle, cancelled_item,
  CheckoutResult, price_of,
}

module _ (now sid : ℕ) (reason : String) (db : Db) where
  abbrev pub table_closed : OrderItem → OrderItem
  table_closed = cancel_row now system (some reason)

  abbrev pub without_unserved : Db
  without_unserved = record db { items = update (to_cancel sid db) table_closed db.items }

  -- Whether or not the UPDATE is sent, the effect is that of the UPDATE.
  pub cancel_all_lem :
      cancel_all now sid reason (select (to_cancel sid db) db.items) db ≡ without_unserved
  unfolding cancel_all first
  cancel_all_lem = go (select (to_cancel sid db) db.items) refl
    where
      go :
          (ys : List OrderItem)
          → select (to_cancel sid db) db.items ≡ ys
          → cancel_all now sid reason ys db ≡ without_unserved
      go [] e =
          ap (λ (rows : List OrderItem). record db { items = rows })
            (sym (update-none (to_cancel sid db) table_closed db.items (ap first e)))
      go (y ∷ ys) e = refl

  -- A cancelled item is on no bill, neither before nor after.
  pub bill_kept : select (to_bill sid db) without_unserved.items ≡ select (to_bill sid db) db.items
  unfolding to_cancel to_bill cancel_row
  bill_kept =
      select-update_disjoint (to_bill sid db) (to_cancel sid db) table_closed db.items
        (λ x h. ground arith) (λ x h. ground arith)

  -- Nothing is left to cancel.
  pub none_to_cancel : select (to_cancel sid db) without_unserved.items ≡ []
  unfolding to_cancel cancel_row
  none_to_cancel =
      select-update_self (to_cancel sid db) (to_cancel sid db) table_closed db.items
        (λ x h. ground arith) (λ x h. h)

module _ (now sid rid : ℕ) (db : Db) where
  abbrev pub settled : Db
  settled = record db {
    items = update (to_cancel sid db) (table_closed now sid "table_closed" db) db.items;
    sessions = update (λ s. s.id == sid) (set_total (served_total sid db)) db.sessions;
    calls = update (is_dismissed sid rid) (dismiss_row now) db.calls;
  }

  abbrev pub settled_result : TableSession → CheckoutResult
  settled_result s = record {
    session = set_total (served_total sid db) s;
    total_amount = served_total sid db;
    auto_cancelled_items = map cancelled_item (select (to_cancel sid db) db.items);
    dismissed_calls_count = length (select (is_dismissed sid rid) db.calls);
  }

  served_total-without :
      served_total sid (without_unserved now sid "table_closed" db) ≡ served_total sid db
  unfolding served_total
  served_total-without = ap (sum_of price_of) (bill_kept now sid "table_closed" db)

  pub found_total :
      (s : TableSession)
      → find_session sid db ≡ some s
      → find session_key sid
          (update (λ s'. s'.id == sid) (set_total (served_total sid db)) db.sessions)
        ≡ some (set_total (served_total sid db) s)
  found_total s e =
      rw
        (
          find-update session_key sid (λ s'. s'.id == sid) (set_total (served_total sid db))
              db.sessions (λ x. refl),
          e,
          find-key session_key sid db.sessions s e,
        )
        (ground arith)

  pub settle_lem :
      (s : TableSession)
      → find_session sid db ≡ some s
      → settle now sid rid db ≡ (ok (settled_result s), settled)
  unfolding settle dismiss_pending store_total
  settle_lem s e = rw (cancel_all_lem, served_total-without, found_total s e)
