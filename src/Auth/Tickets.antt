-- ===== src/Auth/Tickets.antt =====
-- qorder_api/auth/ws_ticket.py and `POST /auth/ws-ticket`: one-shot tickets for WebSockets.
pub mod Laws
use goi_mon.Prelude.{
  ℕ, ◌+◌, ◌-◌, ◌*◌, String, Bool, true, false, ◌&&◌, ◌||◌, Option, none, some, List, [], ◌∷◌, ◌==◌,
  leb, ltb, if◌then◌else◌, not, Exec, ok, err, gets, pure, or_raise, raise_if, ◌>>=◌, ◌>>◌,
}
use Prim.Native.Char.{code}
use text.Mathlib.Text.{◌==◌ as str_eq}
use goi_mon.Model.{Restaurant, Db, second}
use goi_mon.Http.{HttpError, unauthenticated, forbidden, restaurant_not_found}
use goi_mon.Auth.{
  Security, TokenPayload, decode_access_token, is_member, kitchen_roles, get_kitchen_pin_required,
  find_slug,
}

-- The JSON object that a ticket stands for.
pub record TicketPayload : Type 0 where
  pub restaurant_id : ℕ
  pub role : String
  pub user_id : Option ℕ

-- A key `ws_ticket:{ticket}` of Redis with its expiry.
pub record Ticket : Type 0 where
  pub ticket : String
  pub payload : TicketPayload
  pub expires_at : ℕ

abbrev pub ticket_ttl : ℕ
ticket_ttl = 30 * second

unfoldable pub drop_ticket : String → List Ticket → List Ticket
drop_ticket t [] = []
drop_ticket t (k ∷ ks) = let rest = drop_ticket t ks in if str_eq k.ticket t then rest else k ∷ rest

unfoldable pub find_ticket : String → List Ticket → Option Ticket
find_ticket t [] = none
find_ticket t (k ∷ ks) = let rest = find_ticket t ks in if str_eq k.ticket t then some k else rest

-- SET key payload EX ttl; `ticket` is what `secrets.token_urlsafe` returned.
unfoldable pub issue_ws_ticket : ℕ → String → TicketPayload → List Ticket → List Ticket
unfolding drop_ticket
issue_ws_ticket now ticket payload store =
    record { ticket = ticket; payload = payload; expires_at = now + ticket_ttl }
    ∷ drop_ticket ticket store

abbrev live_payload : ℕ → Option Ticket → Option TicketPayload
live_payload now none = none
live_payload now (some k) = if ltb now k.expires_at then some k.payload else none

-- GETDEL key
unfoldable pub verify_ws_ticket : ℕ → String → List Ticket → Option TicketPayload × List Ticket
unfolding drop_ticket find_ticket
verify_ws_ticket now ticket store =
    (live_payload now (find_ticket ticket store), drop_ticket ticket store)

-- An ASCII letter in lower case.
abbrev lower : ℕ → ℕ
lower c = if leb 65 c && leb c 90 then c + 32 else c

-- What follows a prefix, compared without case.
unfoldable pub after_prefix : List ℕ → String → Option String
after_prefix [] s = some s
after_prefix (p ∷ ps) String.[] = none
after_prefix (p ∷ ps) (String.◌∷◌ c s) =
    let rest = after_prefix ps s in if lower (code c) == p then rest else none

-- "bearer "
abbrev pub bearer : List ℕ
bearer = 98 ∷ 101 ∷ 97 ∷ 114 ∷ 101 ∷ 114 ∷ 32 ∷ []

-- The token of an Authorization header.
unfoldable pub bearer_token : Option String → Option String
unfolding after_prefix
bearer_token none = none
bearer_token (some header) = after_prefix bearer header

-- The checks on a token where the PIN is required; the user that the ticket will name.
unfoldable pub ticket_user :
    Security → Restaurant → Option String → Exec (List Ticket) HttpError (Option ℕ)
unfolding bearer_token is_member
ticket_user sec restaurant authorization = do
  token ← or_raise (bearer_token authorization) unauthenticated
  payload ← or_raise (decode_access_token sec token) unauthenticated
  raise_if (not (is_member payload.role kitchen_roles)) forbidden
  raise_if (not (payload.restaurant_id == restaurant.id)) forbidden
  pure (some payload.sub)

unfoldable pub ticket_for :
    Security → Restaurant → Bool → Option String → Exec (List Ticket) HttpError (Option ℕ)
unfolding ticket_user
ticket_for sec restaurant true authorization = ticket_user sec restaurant authorization
ticket_for sec restaurant false authorization = pure none

-- The ticket of a restaurant, once the caller is known to be allowed in.
unfoldable pub issue_for :
    Security → ℕ → String → Db → Option String → Restaurant → Exec (List Ticket) HttpError String
unfolding get_kitchen_pin_required ticket_for issue_ws_ticket
issue_for sec now fresh db authorization r = do
  user_id ← ticket_for sec r (get_kitchen_pin_required r.id db) authorization
  λ store. (
    ok fresh,
    issue_ws_ticket now fresh (record { restaurant_id = r.id; role = "staff"; user_id = user_id })
        store,
  )

-- `create_ws_ticket`, on the tickets in Redis.
unfoldable pub create_ws_ticket :
    Security → ℕ → String → Db → String → Option String → Exec (List Ticket) HttpError String
unfolding find_slug issue_for
create_ws_ticket sec now fresh db slug authorization = do
  r ← or_raise (find_slug slug db) restaurant_not_found
  issue_for sec now fresh db authorization r
