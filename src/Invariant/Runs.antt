-- ===== src/Invariant/Runs.antt =====
-- Runs of the service: any sequence of committed operations, in any order, by anybody.
pub mod Closed
pub mod Final
use goi_mon.Prelude.{
  ℕ, ◌≡◌, refl, sym, subst, ◌++◌, String, Option, none, some, List, arith, Option-cases, Bool-cases,
  Bool, inl, inr, ok, err, Result,
}
use goi_mon.Sql.{select, first}
use goi_mon.Sql.Keyed.{IsKeyed}
use goi_mon.Model.{
  OrderItemStatus, CancelledBy, Order, OrderItem, StaffCall, Db, item_key, find_session, is_waiting,
}
use goi_mon.Items.{set_status, cancel_item}
use goi_mon.Calls.{create, ack, ack_found, CallError, is_recent, get_cooldown, touch_session}
use goi_mon.Sessions.{get_or_open, find_open_session, new_session}
use goi_mon.Sessions.Opening.{get_or_open_found, get_or_open_insert, try_insert_free}
use goi_mon.Sessions.Checkout.{checkout}
use goi_mon.Sessions.Restore.{restore}
use goi_mon.Realtime.{World, announce, publish}
use goi_mon.Customer.Orders.{insert_order}
use goi_mon.Scheduler.{abandon_db}
use goi_mon.Storage.{Config}
use goi_mon.Auth.{TokenPayload}
use goi_mon.Admin.{Office}
use goi_mon.Admin.Requests.{Request, Outside, handle}
use goi_mon.Admin.Requests.Visits.{handle-HasSameVisits}
use goi_mon.Invariant.{IsValid, SessionsValid}
use goi_mon.Invariant.Sessions.{get_or_open-valid, touch_session-valid}
use goi_mon.Invariant.Closing.{checkout-IsValid, restore-IsValid}
use goi_mon.Invariant.Items.{set_status-IsValid, cancel_item-IsValid, abandon_db-IsValid}

-- No other transaction commits in between.
abbrev pub alone : Db → Db
alone db = db

-- One committed operation. The identifiers of new rows are fresh, as `gen_random_uuid()` makes them.
pub data Step : Db → Db → Type 1 where
  opens :
      {db : Db} (now id table restaurant : ℕ) (by : Option ℕ)
      → find_session id db ≡ none
      → Step db (get_or_open alone alone now id table restaurant by db).1
  checks_out : {db : Db} (now sid rid : ℕ) → Step db (checkout now sid rid db).1
  restores : {db : Db} (now clock sid rid : ℕ) → Step db (restore alone now clock sid rid db).1
  sets :
      {db : Db} (now i : ℕ) (to : OrderItemStatus) (actor : Option ℕ) (r : ℕ)
      → Step db (set_status now i to actor r db).1
  cancels :
      {db : Db} (now i : ℕ) (who : CancelledBy) (r : ℕ) (allowed : List OrderItemStatus)
      (reason : Option String)
      → Step db (cancel_item now i who r allowed reason db).1
  orders :
      {db : Db} (order : Order) (items : List OrderItem) (clock : ℕ)
      → IsKeyed item_key (db.items ++ items)
      → Step db (insert_order order items clock db)
  rings :
      (w : World) (now call_id table_id session_id restaurant_id : ℕ)
      → Step w.db
          (create {E = CallError} alone now call_id table_id session_id restaurant_id w).1.db
  answers :
      (w : World) (now call_id actor restaurant_id : ℕ)
      → Step w.db (ack now call_id actor restaurant_id w).1.db
  sweeps : {db : Db} (now sid rid : ℕ) → Step db (abandon_db now sid rid db).1
  administers :
      {Image : Type 0} (cfg : Config) (ext : Outside Image) (user : TokenPayload) (q : Request)
      (o : Office)
      → Step o.db (handle cfg ext user q o).1.db

pub data Run : Db → Db → Type 1 where
  done : {db : Db} → Run db db
  next : {db db' db'' : Db} → Step db db' → Run db' db'' → Run db db''

opens-IsValid :
    (now id table restaurant : ℕ) (by : Option ℕ) (db : Db)
    → find_session id db ≡ none
    → IsValid db
    → IsValid (get_or_open alone alone now id table restaurant by db).1
unfolding new_session
opens-IsValid now id table restaurant by db fresh v = record {
  sessions =
      get_or_open-valid alone alone now id table restaurant by db (λ d k. k) (λ d k. k) fresh
        v.sessions;
  items = kept;
}
  where
    kept : IsKeyed item_key (get_or_open alone alone now id table restaurant by db).1.items
    kept = elim (Option-cases (find_open_session table db)) [
      | inl free ↦
          rw
            (
              get_or_open_insert alone alone now id table restaurant by db free,
              try_insert_free alone (new_session now id table restaurant by) db free,
            )
            v.items
      | inr (s, e) ↦ rw (get_or_open_found alone alone now id table restaurant by db s e) v.items
    ]

rings-IsValid :
    (w : World) (now call_id table_id session_id restaurant_id : ℕ)
    → IsValid w.db
    → IsValid (create {E = CallError} alone now call_id table_id session_id restaurant_id w).1.db
unfolding create announce publish
rings-IsValid w now call_id table_id session_id restaurant_id v =
    elim (Option-cases
      (first (select (is_recent now table_id (get_cooldown restaurant_id w.db)) w.db.calls))) [
        | inl e ↦ rw e (record {
          sessions = touch_session-valid now session_id w.db v.sessions;
          items = v.items;
        })
        | inr (c, e) ↦ rw e v
      ]

answers-IsValid :
    (w : World) (now actor restaurant_id : ℕ) (o : Option StaffCall)
    → IsValid w.db
    → IsValid (ack_found now actor restaurant_id o w).1.db
unfolding ack_found announce publish
answers-IsValid w now actor restaurant_id none v = v
answers-IsValid w now actor restaurant_id (some c) v = elim (Bool-cases (is_waiting c.status)) [
  | inl e ↦ rw e (record { sessions = v.sessions; items = v.items })
  | inr e ↦ rw e v
]

pub Step-IsValid : {db db' : Db} → Step db db' → IsValid db → IsValid db'
unfolding insert_order ack
Step-IsValid (opens {db} now id table restaurant by fresh) v =
    opens-IsValid now id table restaurant by db fresh v
Step-IsValid (checks_out {db} now sid rid) v = checkout-IsValid now sid rid db v
Step-IsValid (restores {db} now clock sid rid) v =
    restore-IsValid alone (λ d k. k) now clock sid rid db v
Step-IsValid (sets {db} now i to actor r) v = set_status-IsValid now i to actor r db v
Step-IsValid (cancels {db} now i who r allowed reason) v =
    cancel_item-IsValid now i who r allowed reason db v
Step-IsValid (orders {db} order items clock keyed) v = record {
  sessions = touch_session-valid clock order.table_session_id db v.sessions;
  items = keyed;
}
Step-IsValid (rings w now call_id table_id session_id restaurant_id) v =
    rings-IsValid w now call_id table_id session_id restaurant_id v
Step-IsValid (answers w now call_id actor restaurant_id) v =
    answers-IsValid w now actor restaurant_id _ v
Step-IsValid (sweeps {db} now sid rid) v = abandon_db-IsValid now sid rid db v
Step-IsValid (administers cfg ext user q o) v =
    let (visits, dishes) = handle-HasSameVisits cfg ext user q o in
    record {
      sessions = subst SessionsValid (sym visits) v.sessions;
      items = subst (IsKeyed item_key) (sym dishes) v.items;
    }

-- From a valid database, every sequence of operations, in any order and by anybody, leads to a
-- valid one: unique ids of sessions and items, at most one open session per table, and a total on
-- closed sessions only. The operations are the opening, checkout, restoring and abandoning of a
-- session, a change of an item's status, its cancelling, an order, a call and its
-- acknowledgement, and the requests of the admin routers that write; each runs without another
-- commit between its statements, and new ids are fresh.
pub Run-IsValid : {db db' : Db} → Run db db' → IsValid db → IsValid db'
Run-IsValid done v = v
Run-IsValid (next s r) v = Run-IsValid r (Step-IsValid s v)
