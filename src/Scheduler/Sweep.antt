-- ===== src/Scheduler/Sweep.antt =====
-- Exactly which sessions a sweep abandons, and what it leaves of their items and calls.
use goi_mon.Prelude.{
  ◌*◌, ◌<◌, ◌⊎◌, sum_of, ℕ, ◌+◌, ◌≤◌, ◌≡◌, ◌≢◌, refl, ◌∙◌, ap, Bool, true, false, ◌&&◌, ◌||◌, none,
  some, List, [], ◌∷◌, arith, ◌==◌, All, Option-cases, Bool-cases, inl, inr, if◌then◌else◌,
  eq_of_==, ==_refl, ==_sym,
}
use goi_mon.Sql.{select, update, first}
use goi_mon.Sql.Rows.{update-none, select-update_self}
use goi_mon.Sql.Keyed.{
  find, IsKeyed, find-update, find-key, first-select, first-select_key, rewrite_row, map_found,
}
use goi_mon.Model.{
  RestaurantSettings, settings_key, hour, TableSession, Db, opened, abandoned, is_open, session_key,
  find_session,
}
use goi_mon.Calls.{is_dismissed, dismiss_row}
use goi_mon.Sessions.{to_cancel, to_bill, price_of, served_total}
use goi_mon.Sessions.Settle.{bill_kept, none_to_cancel, table_closed}
use goi_mon.Realtime.{World, announce}
use goi_mon.Scheduler.{
  may_abandon, abandon_row, abandon_db, abandon_session, is_stale, settings_of, sweep_rows,
  run_sweep,
}

module _ (now sid rid : ℕ) (db : Db) where
  -- The database after the UPDATEs of `_abandon_session`.
  abbrev pub left_behind : Db
  left_behind = record db {
    sessions = update (may_abandon sid) (abandon_row now) db.sessions;
    items = update (to_cancel sid db) (table_closed now sid "session_abandoned" db) db.items;
    calls = update (is_dismissed sid rid) (dismiss_row now) db.calls;
  }

  pub abandon_db_lost :
      first (select (may_abandon sid) db.sessions) ≡ none → abandon_db now sid rid db ≡ (false, db)
  unfolding abandon_db
  abandon_db_lost e = rw (e, abandon_db)

  pub abandon_db_won :
      (s : TableSession)
      → first (select (may_abandon sid) db.sessions) ≡ some s
      → abandon_db now sid rid db ≡ (true, left_behind)
  unfolding abandon_db
  abandon_db_won s e = rw (e, abandon_db)

  pub sessions-abandon_db :
      (abandon_db now sid rid db).1.sessions
      ≡ update (may_abandon sid) (abandon_row now) db.sessions
  sessions-abandon_db = elim (Option-cases (first (select (may_abandon sid) db.sessions))) [
    | inl e ↦ rw (abandon_db_lost e, update-none (may_abandon sid) (abandon_row now) db.sessions e)
    | inr (s, e) ↦ rw (abandon_db_won s e)
  ]

module _ (now sid rid : ℕ) (w : World) where
  db-abandon_session : (abandon_session now sid rid w).db ≡ (abandon_db now sid rid w.db).1
  unfolding abandon_session announce
  db-abandon_session = elim (Option-cases (first (select (may_abandon sid) w.db.sessions))) [
    | inl e ↦ rw (abandon_db_lost now sid rid w.db e)
    | inr (s, e) ↦ rw (abandon_db_won now sid rid w.db s e)
  ]

  find-abandon_session :
      (i : ℕ)
      → find_session i (abandon_session now sid rid w).db
        ≡ map_found session_key
            (rewrite_row session_key (may_abandon sid) (abandon_row now))
            (find_session i w.db)
  unfolding abandon_row
  find-abandon_session i =
      rw (db-abandon_session, sessions-abandon_db)
        (find-update session_key i (may_abandon sid) (abandon_row now) w.db.sessions (λ x. refl))

-- The session `i` is among the rows.
pub listed : ℕ → List TableSession → Bool
listed i [] = false
listed i (s ∷ rest) = s.id == i || listed i rest

-- One more row in front.
sweep_step :
    (now_of : ℕ → ℕ) (i k : ℕ) (l : Bool) (x : TableSession)
    → x.id ≡ i
    → let x' = rewrite_row session_key (may_abandon k) (abandon_row (now_of k)) x in
      (if l && is_open x'.status then abandon_row (now_of i) x' else x')
      ≡ (if (k == i || l) && is_open x.status then abandon_row (now_of i) x else x)
unfolding may_abandon abandon_row
sweep_step now_of i k l x e = elim (Bool-cases (k == i)) [
  | inl same ↦ rw (eq_of_== k i same, e, ==_refl i) (ground arith)
  | inr other ↦ rw (other, e, ==_sym i k, other) (ground arith)
]

find-sweep_rows :
    (now_of : ℕ → ℕ) (i : ℕ) (rows : List TableSession) (w : World) (x : TableSession)
    → find_session i w.db ≡ some x
    → find_session i (sweep_rows now_of rows w).db
      ≡ some (if listed i rows && is_open x.status then abandon_row (now_of i) x else x)
unfolding sweep_rows listed
find-sweep_rows now_of i [] w x e = e
find-sweep_rows now_of i (s ∷ rest) w x e =
    find-sweep_rows now_of i rest (abandon_session (now_of s.id) s.id s.restaurant_id w)
      (rewrite_row session_key (may_abandon s.id) (abandon_row (now_of s.id)) x)
      (find-abandon_session (now_of s.id) s.id s.restaurant_id w i ∙ ap (map_found session_key _) e)
    ∙ ap some
        (sweep_step now_of i s.id (listed i rest) x (find-key session_key i w.db.sessions x e))

listed-absent :
    (i : ℕ) (p : TableSession → Bool) (xs : List TableSession)
    → All (λ y. y.id ≢ i) xs
    → listed i (select p xs) ≡ false
unfolding select listed
listed-absent i p [] h = refl
listed-absent i p (y ∷ ys) (n, h) = ground (arith, listed-absent i p ys h)

listed-select :
    (i : ℕ) (p : TableSession → Bool) (xs : List TableSession) (x : TableSession)
    → IsKeyed session_key xs
    → find session_key i xs ≡ some x
    → listed i (select p xs) ≡ p x
unfolding select listed find
listed-select i p [] x k e = cc
listed-select i p (y ∷ ys) x (n, k) e =
    ground (arith, listed-absent y.id p ys n, listed-select i p ys x k)

module _ (now : ℕ) (now_of : ℕ → ℕ) (w : World) (i : ℕ) (x : TableSession)
    (keyed : IsKeyed session_key w.db.sessions) (found : find_session i w.db ≡ some x) where
  run_sweep-stale :
      find_session i (run_sweep now now_of w).db
      ≡ some (if is_stale now w.db x then abandon_row (now_of i) x else x)
  unfolding run_sweep
  run_sweep-stale =
      find-sweep_rows now_of i (select (is_stale now w.db) w.db.sessions) w x found
      ∙ rw (listed-select i (is_stale now w.db) w.db.sessions x keyed found) (ground arith)

  settings-find : settings_of x.restaurant_id w.db ≡ find settings_key x.restaurant_id w.db.settings
  unfolding settings_of
  settings-find = first-select_key settings_key x.restaurant_id w.db.settings

  -- On a database with unique session ids, a sweep abandons every open session whose last
  -- activity lies longer ago than the timeout of its restaurant, with the time of its own
  -- transaction and without a total.
  pub run_sweep_abandons :
      (r : RestaurantSettings)
      → x.status ≡ opened
      → find settings_key x.restaurant_id w.db.settings ≡ some r
      → x.last_activity_at + r.session_timeout_hours * hour < now
      → find_session i (run_sweep now now_of w).db
        ≡ some
            (record x { status = abandoned; abandoned_at = some (now_of i); total_amount = none })
  run_sweep_abandons r up e late = run_sweep-stale ∙ (unfold abandon_row in rw stale)
    where
      stale : is_stale now w.db x ≡ true
      stale = unfold is_stale in rw (settings-find, e, up) (ground arith)

  -- On a database with unique session ids, a sweep leaves every other session as it is: one that
  -- is not open, one whose last activity is within the timeout of its restaurant, and one whose
  -- restaurant has no settings.
  pub run_sweep_spares :
      (x.status ≢ opened)
        ⊎ ((r : RestaurantSettings) × (find settings_key x.restaurant_id w.db.settings ≡ some r)
            × (now ≤ x.last_activity_at + r.session_timeout_hours * hour))
        ⊎ (find settings_key x.restaurant_id w.db.settings ≡ none)
      → find_session i (run_sweep now now_of w).db ≡ some x
  run_sweep_spares h = run_sweep-stale ∙ rw (fresh h)
    where
      fresh :
          (x.status ≢ opened)
            ⊎ ((r : RestaurantSettings) × (find settings_key x.restaurant_id w.db.settings ≡ some r)
                × (now ≤ x.last_activity_at + r.session_timeout_hours * hour))
            ⊎ (find settings_key x.restaurant_id w.db.settings ≡ none)
          → is_stale now w.db x ≡ false
      fresh (inl ne) = unfold is_stale in ground arith
      fresh (inr (inl (r, e, early))) = unfold is_stale in rw (settings-find, e) (ground arith)
      fresh (inr (inr e)) = unfold is_stale in rw (settings-find, e) (ground arith)

-- What abandoning an open session has done besides.
pub record IsLeft (sid rid : ℕ) (db db' : Db) : Type 0 where
  pub none_left : select (to_cancel sid db') db'.items ≡ []
  pub bill_kept : served_total sid db' ≡ served_total sid db
  pub none_waiting : select (is_dismissed sid rid) db'.calls ≡ []
  pub orders_kept : db'.orders ≡ db.orders

-- On a database with unique session ids, abandoning an open session succeeds: no item of it is
-- left unserved, what was served still adds up to the same bill, no call of it is left pending,
-- and its orders stay.
pub abandon_db-IsLeft :
    (now sid rid : ℕ) (db : Db) (s : TableSession)
    → IsKeyed session_key db.sessions
    → find_session sid db ≡ some s
    → s.status ≡ opened
    → ((abandon_db now sid rid db).0 ≡ true) × IsLeft sid rid db (abandon_db now sid rid db).1
abandon_db-IsLeft now sid rid db s keyed e up = (ap (λ t. t.0) won, rw won left)
  where
    won : abandon_db now sid rid db ≡ (true, left_behind now sid rid db)
    won = abandon_db_won now sid rid db s (
        unfold may_abandon in
        first-select session_key sid (λ x. is_open x.status) db.sessions keyed ∙ rw (e, up))

    left : IsLeft sid rid db (left_behind now sid rid db)
    left = record {
      none_left = unfold to_cancel in none_to_cancel now sid "session_abandoned" db;
      bill_kept =
          unfold served_total to_bill in
          ap (sum_of price_of) (bill_kept now sid "session_abandoned" db);
      none_waiting =
          select-update_self (is_dismissed sid rid) (is_dismissed sid rid) (dismiss_row now)
            db.calls (λ x h. unfold is_dismissed in ground arith) (λ x h. h);
      orders_kept = refl;
    }

-- On a session that is not open the swap fails and nothing is written.
pub abandon_db_closed :
    (now sid rid : ℕ) (db : Db) (s : TableSession)
    → IsKeyed session_key db.sessions
    → find_session sid db ≡ some s
    → s.status ≢ opened
    → abandon_db now sid rid db ≡ (false, db)
unfolding may_abandon
abandon_db_closed now sid rid db s keyed e ne =
    abandon_db_lost now sid rid db
      (first-select session_key sid (λ x. is_open x.status) db.sessions keyed ∙ rw e (ground arith))
