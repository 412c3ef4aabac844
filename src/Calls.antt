-- ===== src/Calls.antt =====
-- qorder_api/services/staff_call_service.py: calls for staff, with a cooldown per table.
pub mod Cooldown
pub mod Answering
use goi_mon.Prelude.{
  ℕ, ◌+◌, ◌*◌, Bool, true, false, ◌&&◌, Option, none, some, List, [], ◌∷◌, ◌++◌, ◌==◌, ltb, length,
  if◌then◌else◌, Exec, ok, err,
}
use goi_mon.Sql.{select, update, first}
use goi_mon.Model.{
  StaffCallStatus, acknowledged, is_waiting, RestaurantSettings, StaffCall, TableSession, Db,
  session_key, second,
}
use goi_mon.Items.{set_activity}
use goi_mon.Realtime.{World, announce, EventType, Payload}

abbrev pub default_cooldown_seconds : ℕ
default_cooldown_seconds = 60

abbrev cooldown_of : Option RestaurantSettings → ℕ
cooldown_of none = default_cooldown_seconds
cooldown_of (some s) = s.staff_call_cooldown_seconds

-- _get_cooldown
unfoldable pub get_cooldown : ℕ → Db → ℕ
unfolding select first
get_cooldown restaurant_id db =
    cooldown_of (first (select (λ s. s.restaurant_id == restaurant_id) db.settings))

-- table_id = :table_id AND created_at > now() - make_interval(secs => :cooldown)
unfoldable pub is_recent : ℕ → ℕ → ℕ → StaffCall → Bool
is_recent now table_id cooldown c =
    c.table_id == table_id && ltb now (c.created_at + cooldown * second)

abbrev is_here : {A : Type 0} → Option A → Bool
is_here none = false
is_here (some _) = true

-- UPDATE table_sessions SET last_activity_at = now() WHERE id = :session_id
unfoldable pub touch_session : ℕ → ℕ → Db → Db
unfolding update
touch_session now session_id db = record db {
  sessions = update (λ s. s.id == session_id) (set_activity now) db.sessions;
}

unfoldable pub new_call : ℕ → ℕ → ℕ → ℕ → ℕ → StaffCall
new_call now call_id table_id session_id restaurant_id = record {
  id = call_id;
  restaurant_id = restaurant_id;
  table_id = table_id;
  table_session_id = session_id;
  status = StaffCallStatus.pending;
  created_at = now;
  acknowledged_at = none;
  acknowledged_by = none;
}

-- A call within the cooldown of an earlier one is dropped: the answer is `none`. `gap` is what other
-- transactions commit between the query for recent calls and the INSERT.
unfoldable pub create :
    {E : Type 0} → (Db → Db) → ℕ → ℕ → ℕ → ℕ → ℕ → Exec World E (Option StaffCall)
unfolding get_cooldown select first is_recent touch_session new_call announce
create gap now call_id table_id session_id restaurant_id w =
    let cooldown = get_cooldown restaurant_id w.db in
    if is_here (first (select (is_recent now table_id cooldown) w.db.calls))
    then (ok none, w)
    else (let call = new_call now call_id table_id session_id restaurant_id in
        let db₁ = gap w.db in
        let added = record db₁ { calls = db₁.calls ++ call ∷ [] } in
        (
          ok (some call),
          announce restaurant_id session_id EventType.staff_call_new
              (Payload.new_call call.id call.table_id call.table_session_id call.status
                call.created_at)
              (record w { db = touch_session now session_id added }),
        ))

pub data CallError : Type 0 where
  call_not_found : CallError

unfoldable pub ack_row : ℕ → ℕ → StaffCall → StaffCall
ack_row now actor c = record c {
  status = acknowledged;
  acknowledged_at = some now;
  acknowledged_by = some actor;
}

-- The call that was read, or none.
unfoldable pub ack_found : ℕ → ℕ → ℕ → Option StaffCall → Exec World CallError StaffCall
unfolding update ack_row announce
ack_found now actor restaurant_id none w = (err call_not_found, w)
ack_found now actor restaurant_id (some call) w =
    if is_waiting call.status
    then (let call' = ack_row now actor call in
        let stored = update (λ c. c.id == call.id) (ack_row now actor) w.db.calls in
        (
          ok call',
          announce restaurant_id call'.table_session_id EventType.staff_call_ack
              (Payload.acked_call call'.id call'.table_id call'.table_session_id call'.status
                call'.acknowledged_at call'.acknowledged_by)
              (record w { db = record w.db { calls = stored } }),
        ))
    else (ok call, w)

unfoldable pub ack : ℕ → ℕ → ℕ → ℕ → Exec World CallError StaffCall
unfolding ack_found select first
ack now call_id actor_user_id restaurant_id w =
    ack_found now actor_user_id restaurant_id
      (first (select (λ c. c.id == call_id && c.restaurant_id == restaurant_id) w.db.calls)) w

unfoldable pub is_dismissed : ℕ → ℕ → StaffCall → Bool
is_dismissed session_id restaurant_id c =
    c.table_session_id == session_id && (c.restaurant_id == restaurant_id && is_waiting c.status)

abbrev pub dismiss_row : ℕ → StaffCall → StaffCall
dismiss_row now c = record c { status = acknowledged; acknowledged_at = some now }

-- The number of calls that were dismissed, and the database without them pending.
unfoldable pub dismiss_pending : ℕ → ℕ → ℕ → Db → ℕ × Db
unfolding select update is_dismissed
dismiss_pending now session_id restaurant_id db = (
  length (select (is_dismissed session_id restaurant_id) db.calls),
  record db { calls = update (is_dismissed session_id restaurant_id) (dismiss_row now) db.calls },
)
