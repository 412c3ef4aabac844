-- ===== src/Realtime.antt =====
-- qorder_api/realtime: channels, event types and the publisher. A channel name is kept as the data
-- that its string is built from. `World` is what a request handler acts on: the database, and what
-- Redis has taken in so far.
pub mod Blind
use goi_mon.Prelude.{ℕ, ◌+◌, String, Bool, Option, List, [], ◌∷◌, ◌++◌, if◌then◌else◌, Exec, Result}
use goi_mon.Model.{OrderItemStatus, CancelledBy, StaffCallStatus, Db}

pub data Channel : Type 0 where
  kitchen_channel : ℕ → Channel
  session_channel : ℕ → ℕ → Channel

pub data EventType : Type 0 where
  order_created item_updated item_cancelled staff_call_new staff_call_ack session_closed
        session_abandoned session_restored :
      EventType

unfoldable pub wire_name : EventType → String
wire_name order_created = "order.created"
wire_name item_updated = "item.updated"
wire_name item_cancelled = "item.cancelled"
wire_name staff_call_new = "staff_call.new"
wire_name staff_call_ack = "staff_call.ack"
wire_name session_closed = "session.closed"
wire_name session_abandoned = "session.abandoned"
wire_name session_restored = "session.restored"

pub record ItemSummary : Type 0 where
  pub id : ℕ
  pub name_snapshot : String
  pub quantity : ℕ
  pub status : OrderItemStatus

-- The payload dicts that the services and routers build.
pub data Payload : Type 0 where
  order : ℕ → ℕ → List ItemSummary → Payload
  item : ℕ → OrderItemStatus → ℕ → Payload
  cancelled_item : ℕ → OrderItemStatus → CancelledBy → Option ℕ → Payload
  new_call : ℕ → ℕ → ℕ → StaffCallStatus → ℕ → Payload
  acked_call : ℕ → ℕ → ℕ → StaffCallStatus → Option ℕ → Option ℕ → Payload
  closed_session : ℕ → ℕ → ℕ → Option ℕ → Payload
  abandoned_session : ℕ → ℕ → Payload
  restored_session : ℕ → ℕ → Payload

pub record Event : Type 0 where
  pub channel : Channel
  pub type : EventType
  pub seq : ℕ
  pub payload : Payload

-- `time_ns k` is the k-th reading of `time.time_ns()`, `redis_up` says whether `PUBLISH` succeeds.
pub record World : Type 0 where
  pub db : Db
  pub events : List Event
  pub redis_up : Bool
  pub time_ns : ℕ → ℕ
  pub readings : ℕ

-- A failed publish is logged and swallowed.
unfoldable pub publish : Channel → EventType → Payload → World → World
publish channel type payload w =
    let event : Event = record {
      channel = channel;
      type = type;
      seq = w.time_ns w.readings;
      payload = payload;
    } in
    record w {
      events = if w.redis_up then w.events ++ event ∷ [] else w.events;
      readings = w.readings + 1;
    }

-- A database action, as part of a handler.
abbrev pub on_db : {E A : Type 0} → Exec Db E A → Exec World E A
on_db m w = let (r, db') = m w.db in (r, record w { db = db' })

-- Both channels of a session's restaurant.
unfoldable pub announce : ℕ → ℕ → EventType → Payload → World → World
unfolding publish
announce restaurant_id session_id type payload w =
    publish (session_channel restaurant_id session_id) type payload
      (publish (kitchen_channel restaurant_id) type payload w)
