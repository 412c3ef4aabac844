-- ===== src/Invariant/Runs/Final.antt =====
-- Closed sessions along the runs of the service.
use goi_mon.Prelude.{
  ℕ, ◌≡◌, refl, ap, ◌++◌, ◌∷◌, [], ◌==◌, Option, none, some, List, arith, Option-cases, Bool-cases,
  inl, inr,
}
use goi_mon.Sql.{select, first}
use goi_mon.Sql.Keyed.{find}
use goi_mon.Model.{TableSession, is_waiting, Db, StaffCall, session_key, OrderItemStatus}
use goi_mon.Items.{set_activity, set_status, allowed_from, set_row, cancel_row}
use goi_mon.Items.Moves.{set_status-swap, set_status-none, test}
use goi_mon.Items.Cancel.{cancellable, cancel_item-swap}
use goi_mon.Calls.{create, ack, ack_found, CallError, is_recent, get_cooldown, touch_session}
use goi_mon.Realtime.{World, announce, publish}
use goi_mon.Sessions.{get_or_open, find_open_session, new_session}
use goi_mon.Sessions.Opening.{get_or_open_found, get_or_open_insert, try_insert_free}
use goi_mon.Scheduler.{abandon_db, may_abandon, abandon_row}
use goi_mon.Scheduler.Sweep.{sessions-abandon_db}
use goi_mon.Admin.Requests.{handle}
use goi_mon.Admin.Requests.Visits.{handle-HasSameVisits}
use goi_mon.Invariant.{IsValid}
use goi_mon.Sessions.Restore.Outcomes.{restore-row, own}
use goi_mon.Customer.Orders.{insert_order}
use goi_mon.Invariant.Runs.{
  alone, Step, opens, checks_out, restores, sets, cancels, orders, rings, answers, sweeps,
  administers, Run, done, next, Step-IsValid,
}
use goi_mon.Invariant.Runs.Closed.{
  IsClosed, update-IsClosed, same-IsClosed, swap-IsClosed, checkout-IsClosed, restore_row-IsClosed,
}

module _ (k : ℕ) (total time : Option ℕ) where
  set_status-IsClosed :
      (now i : ℕ) (to : OrderItemStatus) (actor : Option ℕ) (r : ℕ) (db : Db)
      → IsValid db
      → IsClosed k total time db
      → IsClosed k total time (set_status now i to actor r db).1
  set_status-IsClosed now i to actor r db v c = elim (Option-cases (allowed_from to)) [
    | inl e ↦ rw (set_status-none now i to actor r db e) c
    | inr (ss, e) ↦
        rw (set_status-swap now i to actor r ss e db) (
          swap-IsClosed k total time now i (test now i to actor r ss) (set_row now to actor) db v c)
  ]

  found_append :
      (s t : TableSession) (xs : List TableSession)
      → find session_key k xs ≡ some s
      → find session_key k (xs ++ t ∷ []) ≡ some s
  unfolding find
  found_append s t [] h = absurd (ground arith)
  found_append s t (x ∷ xs) h = ground (arith, found_append s t xs)

  opens-IsClosed :
      (now id table restaurant : ℕ) (by : Option ℕ) (db : Db)
      → IsClosed k total time db
      → IsClosed k total time (get_or_open alone alone now id table restaurant by db).1
  unfolding new_session
  opens-IsClosed now id table restaurant by db c =
      elim (Option-cases (find_open_session table db)) [
        | inl free ↦
            rw
              (
                get_or_open_insert alone alone now id table restaurant by db free,
                try_insert_free alone (new_session now id table restaurant by) db free,
              )
              (record {
                session = c.session;
                found =
                    found_append c.session (new_session now id table restaurant by) db.sessions
                      c.found;
                shut = c.shut;
                total_kept = c.total_kept;
                time_kept = c.time_kept;
              })
        | inr (s, e) ↦ rw (get_or_open_found alone alone now id table restaurant by db s e) c
      ]

  touch_session-IsClosed :
      (now sid : ℕ) (db db' : Db)
      → db'.sessions ≡ (touch_session now sid db).sessions
      → IsClosed k total time db
      → IsClosed k total time db'
  unfolding touch_session
  touch_session-IsClosed now sid db db' e c =
      update-IsClosed k total time (λ s. s.id == sid) (set_activity now) db db' (λ y. refl)
        (λ y h u. (u, refl, refl)) e c

  rings-IsClosed :
      (w : World) (now call_id table_id session_id restaurant_id : ℕ)
      → IsClosed k total time w.db
      → IsClosed k total time
          (create {E = CallError} alone now call_id table_id session_id restaurant_id w).1.db
  unfolding create announce publish touch_session
  rings-IsClosed w now call_id table_id session_id restaurant_id c =
      elim (Option-cases
        (first (select (is_recent now table_id (get_cooldown restaurant_id w.db)) w.db.calls))) [
          | inl e ↦ rw e (touch_session-IsClosed now session_id w.db _ refl c)
          | inr (recent, e) ↦ rw e c
        ]

  answers-IsClosed :
      (w : World) (now actor restaurant_id : ℕ) (o : Option StaffCall)
      → IsClosed k total time w.db
      → IsClosed k total time (ack_found now actor restaurant_id o w).1.db
  unfolding ack_found announce publish
  answers-IsClosed w now actor restaurant_id none c = c
  answers-IsClosed w now actor restaurant_id (some call) c =
      elim (Bool-cases (is_waiting call.status)) [
        | inl e ↦ rw e (same-IsClosed k total time w.db _ refl c)
        | inr e ↦ rw e c
      ]

  Step-IsClosed :
      {db db' : Db}
      → Step db db'
      → IsValid db
      → IsClosed k total time db
      → IsClosed k total time db'
  unfolding insert_order ack abandon_row may_abandon touch_session
  Step-IsClosed (opens {db} now id table restaurant by fresh) v c =
      opens-IsClosed now id table restaurant by db c
  Step-IsClosed (checks_out {db} now sid rid) v c =
      checkout-IsClosed k total time now sid rid db v c
  Step-IsClosed (restores {db} now clock sid rid) v c =
      rw (restore-row alone now clock sid rid db v.sessions.keyed) (
        restore_row-IsClosed k total time now clock sid rid db
          (own alone now clock sid rid db v.sessions.keyed) v c)
  Step-IsClosed (sets {db} now i to actor r) v c = set_status-IsClosed now i to actor r db v c
  Step-IsClosed (cancels {db} now i who r allowed reason) v c =
      rw (cancel_item-swap now i who r allowed reason db) (
        swap-IsClosed k total time now i (cancellable now i who r allowed reason)
          (cancel_row now who reason) db v c)
  Step-IsClosed (orders {db} order items clock keyed) v c =
      touch_session-IsClosed clock order.table_session_id db _ refl c
  Step-IsClosed (rings w now call_id table_id session_id restaurant_id) v c =
      rings-IsClosed w now call_id table_id session_id restaurant_id c
  Step-IsClosed (answers w now call_id actor restaurant_id) v c =
      answers-IsClosed w now actor restaurant_id _ c
  Step-IsClosed (sweeps {db} now sid rid) v c =
      update-IsClosed k total time (may_abandon sid) (abandon_row now) db
        (abandon_db now sid rid db).1 (λ y. refl) (λ y hit u. absurd (ground arith))
        (sessions-abandon_db now sid rid db) c
  Step-IsClosed (administers cfg ext user q o) v c =
      let (visits, dishes) = handle-HasSameVisits cfg ext user q o in
      same-IsClosed k total time o.db (handle cfg ext user q o).1.db
        (ap (find session_key k) visits) c

  -- A closed session is final: in a valid database, whatever sequence of these operations
  -- follows, the session is still there, closed, with the same total and the same time of
  -- closing. The operations are those that keep a database valid, each without another commit
  -- between its statements.
  pub Run-IsClosed :
      {db db' : Db} → Run db db' → IsValid db → IsClosed k total time db → IsClosed k total time db'
  Run-IsClosed done v c = c
  Run-IsClosed (next s r) v c = Run-IsClosed r (Step-IsValid s v) (Step-IsClosed s v c)
