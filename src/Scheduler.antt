-- ===== src/Scheduler.antt =====
-- qorder_api/scheduler: the sweep that abandons stale sessions, under a lock in Redis.
pub mod Sweep
pub mod Locks
pub mod Races
use goi_mon.Prelude.{
  ℕ, ◌+◌, ◌*◌, Bool, true, false, ◌&&◌, Option, none, some, List, [], ◌∷◌, ◌==◌, ltb, length,
  if◌then◌else◌,
}
use goi_mon.Sql.{select, update, first}
use goi_mon.Model.{CancelledBy, abandoned, is_open, RestaurantSettings, TableSession, Db, hour}
use goi_mon.Items.{cancel_row}
use goi_mon.Calls.{dismiss_pending}
use goi_mon.Sessions.{to_cancel}
use goi_mon.Sessions.Checkout.{update_session}
use goi_mon.Realtime.{World, announce, EventType, Payload}

unfoldable pub may_abandon : ℕ → TableSession → Bool
may_abandon session_id s = s.id == session_id && is_open s.status

unfoldable pub abandon_row : ℕ → TableSession → TableSession
abandon_row now s = record s { status = abandoned; abandoned_at = some now; total_amount = none }

-- The auto-cancel of `_abandon_session`: the UPDATE is sent whether or not a row matches.
unfoldable pub cancel_unserved : ℕ → ℕ → Db → Db
unfolding update to_cancel cancel_row
cancel_unserved now session_id db = record db {
  items =
      update (to_cancel session_id db)
        (cancel_row now CancelledBy.system (some "session_abandoned")) db.items;
}

-- The transaction of `_abandon_session`, up to its commit; false where the swap found no row.
unfoldable pub abandon_db : ℕ → ℕ → ℕ → Db → Bool × Db
unfolding select update first may_abandon abandon_row cancel_unserved dismiss_pending
abandon_db now session_id restaurant_id db =
    elim (first (select (may_abandon session_id) db.sessions)) [
      | none ↦ (false, db)
      | some row ↦
          let db₁ = record db {
            sessions = update (may_abandon session_id) (abandon_row now) db.sessions;
          } in
          (
            true,
            (dismiss_pending now session_id restaurant_id (cancel_unserved now session_id db₁)).1,
          )
    ]

-- `_abandon_session`: the event goes out only if the session was abandoned by this call.
unfoldable pub abandon_session : ℕ → ℕ → ℕ → World → World
unfolding abandon_db announce
abandon_session now session_id restaurant_id w =
    let (won, db') = abandon_db now session_id restaurant_id w.db in
    if won
    then announce restaurant_id session_id EventType.session_abandoned
        (Payload.abandoned_session session_id restaurant_id) (record w { db = db' })
    else w

-- The settings row that the JOIN pairs a session with.
unfoldable pub settings_of : ℕ → Db → Option RestaurantSettings
unfolding select first
settings_of restaurant_id db = first (select (λ r. r.restaurant_id == restaurant_id) db.settings)

abbrev timed_out : ℕ → Option RestaurantSettings → TableSession → Bool
timed_out now none s = false
timed_out now (some r) s = ltb (s.last_activity_at + r.session_timeout_hours * hour) now

-- ts.status = 'open' AND ts.last_activity_at < now() - make_interval(hours => timeout)
unfoldable pub is_stale : ℕ → Db → TableSession → Bool
unfolding settings_of
is_stale now db s = is_open s.status && timed_out now (settings_of s.restaurant_id db) s

unfoldable pub sweep_rows : (ℕ → ℕ) → List TableSession → World → World
unfolding abandon_session
sweep_rows now_of [] w = w
sweep_rows now_of (s ∷ rest) w =
    sweep_rows now_of rest (abandon_session (now_of s.id) s.id s.restaurant_id w)

-- `_run_sweep`: the stale sessions are listed once, and each is abandoned in a transaction of its
-- own, whose `now()` is `now_of` the session.
unfoldable pub run_sweep : ℕ → (ℕ → ℕ) → World → World
unfolding select is_stale sweep_rows
run_sweep now now_of w = sweep_rows now_of (select (is_stale now w.db) w.db.sessions) w

-- The lock key in Redis: its holder, and when it expires.
pub record Lock : Type 0 where
  pub holder : ℕ
  pub expires_at : ℕ

-- The value at `now`: an expired key is gone.
abbrev pub held : ℕ → Option Lock → Option Lock
held now none = none
held now (some l) = if ltb now l.expires_at then some l else none

-- SET key value NX EX ttl
unfoldable pub try_lock : ℕ → ℕ → ℕ → Option Lock → Bool × Option Lock
try_lock now holder ttl lock = elim (held now lock) [
  | none ↦ (true, some (record { holder = holder; expires_at = now + ttl }))
  | some l ↦ (false, some l)
]

-- DELETE key
unfoldable pub delete_lock : Option Lock → Option Lock
delete_lock lock = none

-- GET at `now` and a comparison with our instance id; the DELETE comes after `gap`, in which other
-- clients act, and removes whatever is there.
unfoldable pub release_lock : (Option Lock → Option Lock) → ℕ → ℕ → Option Lock → Option Lock
unfolding delete_lock
release_lock gap now holder lock = elim (held now lock) [
  | none ↦ gap lock
  | some l ↦ if l.holder == holder then delete_lock (gap lock) else gap lock
]

-- `sweep_abandoned_sessions`: `start` and `finish` are Redis' clock at the lock and at the GET,
-- `meanwhile` what other clients do to the lock during the sweep.
unfoldable pub sweep_abandoned_sessions :
    (Option Lock → Option Lock)
    → (Option Lock → Option Lock)
    → ℕ
    → ℕ
    → ℕ
    → ℕ
    → ℕ
    → (ℕ → ℕ)
    → World
    → Option Lock
    → World × Option Lock
unfolding try_lock release_lock run_sweep
sweep_abandoned_sessions meanwhile gap start finish instance_id ttl now now_of w lock =
    let (acquired, lock') = try_lock start instance_id ttl lock in
    if acquired
    then (run_sweep now now_of w, release_lock gap finish instance_id (meanwhile lock'))
    else (w, lock')
