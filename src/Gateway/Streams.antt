-- ===== src/Gateway/Streams.antt =====
-- Who may listen to which stream, and what arrives there.
use goi_mon.Prelude.{
  ℕ, ◌+◌, ◌<◌, ◌≡◌, refl, ◌∙◌, ap, String, Bool, false, Option, none, some, List, [], ◌∷◌, ◌++◌,
  map, arith, ok, ltb, if◌then◌else◌,
}
use text.Mathlib.Text.{◌==◌ as str_eq}
use goi_mon.Model.{Db, Restaurant}
use goi_mon.Realtime.{kitchen_channel}
use goi_mon.Auth.{Security, find_slug}
use goi_mon.Auth.Tickets.{
  Ticket, TicketPayload, ticket_ttl, issue_ws_ticket, verify_ws_ticket, create_ws_ticket,
}
use goi_mon.Auth.Tickets.Laws.{verify_once, verify-issue, create_ws_ticket-IsEntitled}
use goi_mon.Gateway.{
  closed_with, subscribed, kitchen_handshake, kitchen_with, ws_kitchen, ws_close_invalid_ticket,
  PubSubMessage, notice, message, bridge,
}

module _ (t : String) (present : str_eq t "" ≡ false) where
  ws_kitchen_given :
      (now : ℕ) (store : List Ticket)
      → ws_kitchen now (some t) store
        ≡ (kitchen_handshake (verify_ws_ticket now t store).0, (verify_ws_ticket now t store).1)
  unfolding ws_kitchen
  ws_kitchen_given now store =
      ap (λ (b : Bool). kitchen_with now (if b then none else some t) store) present

  -- A ticket that was presented once, valid or not, opens no stream afterwards: presented again
  -- at any time it gets the close code 4401.
  pub ws_kitchen_once :
      (now later : ℕ) (store : List Ticket)
      → (ws_kitchen later (some t) (ws_kitchen now (some t) store).1).0
        ≡ closed_with ws_close_invalid_ticket
  ws_kitchen_once now later store =
      rw (ws_kitchen_given now store, ws_kitchen_given later (verify_ws_ticket now t store).1)
        (ap kitchen_handshake (verify_once t store now later))

  -- A ticket, not the empty string, that was handed out for a slug opens, before its 30 seconds
  -- are over, the kitchen stream of the active restaurant of that slug and of no other.
  pub ws_kitchen-create_ws_ticket :
      (sec : Security) (now later : ℕ) (db : Db) (slug : String) (authorization : Option String)
      (store : List Ticket)
      → (create_ws_ticket sec now t db slug authorization store).0 ≡ ok t
      → later < now + ticket_ttl
      → (r : Restaurant) × (find_slug slug db ≡ some r)
        × ((ws_kitchen later (some t) (create_ws_ticket sec now t db slug authorization store).1).0
            ≡ subscribed (kitchen_channel r.id))
  ws_kitchen-create_ws_ticket sec now later db slug authorization store h soon =
      let (p, entitled, run) =
        create_ws_ticket-IsEntitled sec now t db slug authorization store t h in
      (
        entitled.restaurant,
        entitled.active,
        rw (run, ws_kitchen_given later (issue_ws_ticket now t p store))
            (ap kitchen_handshake ((verify-issue t store now later p).0 ∙ live p)
              ∙ ap (λ i. subscribed (kitchen_channel i)) entitled.bound),
      )
    where
      live : (p : TicketPayload) → (if ltb later (now + ticket_ttl) then some p else none) ≡ some p
      live p = ground arith

-- A socket gets the texts that were published, each once and in their order, however the stream is
-- cut into parts; confirmations of the subscription are not forwarded.
pub bridge-append :
    (ms ns : List PubSubMessage) (texts : List String)
    → (bridge (ms ++ ns) ≡ bridge ms ++ bridge ns) × (bridge (notice ∷ map message texts) ≡ texts)
unfolding bridge
bridge-append ms ns texts = (cut ms, published texts)
  where
    cut : (ks : List PubSubMessage) → bridge (ks ++ ns) ≡ bridge ks ++ bridge ns
    cut [] = refl
    cut (notice ∷ ks) = cut ks
    cut (message text ∷ ks) = ap (λ (l : List String). text ∷ l) (cut ks)

    published : (ts : List String) → bridge (notice ∷ map message ts) ≡ ts
    published [] = refl
    published (t ∷ ts) = ap (λ (l : List String). t ∷ l) (published ts)
