-- ===== src/Gateway.antt =====
-- qorder_api/ws/gateway.py: which channel a WebSocket is subscribed to, and what is forwarded to it.
pub mod Streams
use goi_mon.Prelude.{
  ℕ, String, Bool, true, false, ◌&&◌, Option, none, some, List, [], ◌∷◌, ◌==◌, if◌then◌else◌, Exec,
  Result, ok, err,
}
use text.Mathlib.Text.{◌==◌ as str_eq}
use goi_mon.Model.{Db, Table, TableSession}
use goi_mon.Sessions.{SessionError, get_or_open}
use goi_mon.Realtime.{Channel, kitchen_channel, session_channel}
use goi_mon.Http.{Env, find_table, find_restaurant}
use goi_mon.Auth.Tickets.{Ticket, TicketPayload, verify_ws_ticket}

abbrev pub ws_close_invalid_ticket : ℕ
ws_close_invalid_ticket = 4401

abbrev pub ws_close_invalid_qr : ℕ
ws_close_invalid_qr = 4404

-- How a handshake ends; `crashed` is an exception in `get_or_open`.
pub data Handshake : Type 0 where
  closed_with : ℕ → Handshake
  subscribed : Channel → Handshake
  crashed : SessionError → Handshake

-- A missing and an empty query parameter are both refused.
abbrev pub given : Option String → Option String
given none = none
given (some t) = if str_eq t "" then none else some t

abbrev pub kitchen_handshake : Option TicketPayload → Handshake
kitchen_handshake none = closed_with ws_close_invalid_ticket
kitchen_handshake (some p) = subscribed (kitchen_channel p.restaurant_id)

abbrev pub kitchen_with : ℕ → Option String → List Ticket → Handshake × List Ticket
kitchen_with now none store = (closed_with ws_close_invalid_ticket, store)
kitchen_with now (some t) store =
    let (p, store') = verify_ws_ticket now t store in (kitchen_handshake p, store')

unfoldable pub ws_kitchen : ℕ → Option String → List Ticket → Handshake × List Ticket
unfolding verify_ws_ticket
ws_kitchen now ticket store = kitchen_with now (given ticket) store

-- _resolve_qr_token
unfoldable pub resolve_qr_token : String → Db → Option (Table × ℕ)
unfolding find_table find_restaurant
resolve_qr_token qr_token db = elim (find_table qr_token db) [
  | none ↦ none
  | some t ↦ elim (find_restaurant t.restaurant_id db) [ none ↦ none | some r ↦ some (t, r.id) ]
]

abbrev pub session_handshake : ℕ → Result SessionError TableSession → Handshake
session_handshake r (ok s) = subscribed (session_channel r s.id)
session_handshake r (err e) = crashed e

unfoldable pub ws_customer : Env → String → Db → Handshake × Db
unfolding resolve_qr_token get_or_open
ws_customer env qr_token db = elim (resolve_qr_token qr_token db) [
  | none ↦ (closed_with ws_close_invalid_qr, db)
  | some (t, r) ↦
      let (res, db') =
        get_or_open env.meanwhile env.later env.open_now env.session_id t.id r none db in
      (session_handshake r res, db')
]

-- What `pubsub.listen()` yields: confirmations of a subscription, and messages.
pub data PubSubMessage : Type 0 where
  notice : PubSubMessage
  message : String → PubSubMessage

-- _bridge_redis_to_ws
unfoldable pub bridge : List PubSubMessage → List String
bridge [] = []
bridge (notice ∷ ms) = bridge ms
bridge (message text ∷ ms) = text ∷ bridge ms
