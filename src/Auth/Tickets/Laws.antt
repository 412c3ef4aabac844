-- ===== src/Auth/Tickets/Laws.antt =====
-- The life of a ticket: issuing, presenting, and who gets one.
use goi_mon.Prelude.{
  ℕ, ◌+◌, ◌≡◌, ◌≢◌, refl, ◌∙◌, ap, String, Bool, true, false, not, Option, none, some, List, [],
  ◌∷◌, arith, ok, ◌>>◌, raise_if, pure, ◌⊎◌, inl, inr, if◌then◌else◌, ◌==◌, ltb, or_raise, ◌>>=◌,
  >>=-inv, eq_of_==, Exec,
}
use text.Mathlib.TextEquality.{eq_iff}
use text.Mathlib.TextPositions.{eq_refl}
use goi_mon.Model.{Restaurant, Db}
use goi_mon.Http.{HttpError, unauthenticated, forbidden, restaurant_not_found}
use goi_mon.Auth.{
  Security, TokenPayload, decode_access_token, is_member, kitchen_roles, get_kitchen_pin_required,
  find_slug,
}
use goi_mon.Auth.Tickets.{
  TicketPayload, Ticket, ticket_ttl, drop_ticket, find_ticket, issue_ws_ticket, verify_ws_ticket,
  bearer_token, ticket_user, ticket_for, create_ws_ticket, issue_for,
}

find-drop_self : (t : String) (store : List Ticket) → find_ticket t (drop_ticket t store) ≡ none
unfolding find_ticket drop_ticket
find-drop_self t [] = refl
find-drop_self t (k ∷ ks) = ground (arith, find-drop_self t ks)

find-drop_ne :
    (t u : String) (store : List Ticket)
    → u ≢ t
    → find_ticket u (drop_ticket t store) ≡ find_ticket u store
unfolding find_ticket drop_ticket
find-drop_ne t u [] ne = refl
find-drop_ne t u (k ∷ ks) ne =
    ground (arith, find-drop_ne t u ks ne, eq_iff k.ticket t, eq_iff k.ticket u)

module _ (t : String) (store : List Ticket) where
  -- A ticket that was presented once, at whatever time, is refused ever after.
  pub verify_once :
      (now later : ℕ) → (verify_ws_ticket later t (verify_ws_ticket now t store).1).0 ≡ none
  unfolding verify_ws_ticket
  verify_once now later = rw (find-drop_self t store)

  -- A fresh ticket stands for its payload, for as long as its lifetime lasts and no longer; other
  -- tickets are not affected.
  pub verify-issue :
      (now later : ℕ) (p : TicketPayload)
      → ((verify_ws_ticket later t (issue_ws_ticket now t p store)).0
          ≡ (if ltb later (now + ticket_ttl) then some p else none))
        × ((u : String)
            → u ≢ t
            → (verify_ws_ticket later u (issue_ws_ticket now t p store)).0
              ≡ (verify_ws_ticket later u store).0)
  unfolding verify_ws_ticket issue_ws_ticket find_ticket
  verify-issue now later p =
      (rw (eq_refl t), λ u ne. ground (arith, eq_iff t u, find-drop_ne t u store ne))

-- A user id that a valid token of the restaurant's staff or admin vouches for.
abbrev pub HasMember : Security → Restaurant → Option String → Option ℕ → Type 0
HasMember sec r header o =
    (token : String) × (u : TokenPayload) × (bearer_token header ≡ some token)
    × (decode_access_token sec token ≡ some u)
    × (is_member u.role kitchen_roles ≡ true)
    × (u.restaurant_id ≡ r.id)
    × (o ≡ some u.sub)

-- What stands behind a ticket that was handed out: an active restaurant and, where it requires the
-- PIN, a valid token of that restaurant's staff or admin, whose user the ticket names.
pub record IsEntitled (sec : Security) (db : Db) (slug : String) (authorization : Option String)
    (p : TicketPayload) : Type 0 where
  pub restaurant : Restaurant
  pub active : find_slug slug db ≡ some restaurant
  pub bound : p.restaurant_id ≡ restaurant.id
  pub user :
      ((get_kitchen_pin_required restaurant.id db ≡ false) × (p.user_id ≡ none))
      ⊎ HasMember sec restaurant authorization p.user_id

-- Both guards of a checked token passed.
guards_passed :
    (a b : Bool) (sub : ℕ) (o : Option ℕ) (store : List Ticket)
    → ((raise_if a forbidden >> (raise_if b forbidden >> pure (some sub))) store).0 ≡ ok o
    → (a ≡ false) × (b ≡ false) × (o ≡ some sub)
guards_passed a b sub o store h = ground arith

decoded :
    (sec : Security) (r : Restaurant) (store : List Ticket) (token : String) (o : Option ℕ)
    (found : Option TokenPayload)
    → ((or_raise found unauthenticated >>= λ u.
          raise_if (not (is_member u.role kitchen_roles)) forbidden
          >> (raise_if (not (u.restaurant_id == r.id)) forbidden >> pure (some u.sub)))
        store).0
      ≡ ok o
    → (u : TokenPayload) × (found ≡ some u)
      × (is_member u.role kitchen_roles ≡ true)
      × (u.restaurant_id ≡ r.id)
      × (o ≡ some u.sub)
decoded sec r store token o none h = absurd (ground arith)
decoded sec r store token o (some u) h =
    let (member, here, names) =
      guards_passed (not (is_member u.role kitchen_roles)) (not (u.restaurant_id == r.id)) u.sub o
        store h in
    (u, refl, ground arith, eq_of_== u.restaurant_id r.id (ground arith), names)

guards_same :
    (a b : Bool) (sub : ℕ) (store : List Ticket)
    → ((raise_if a forbidden >> (raise_if b forbidden >> pure (some sub))) store).1 ≡ store
guards_same a b sub store = ground arith

decoded_same :
    (sec : Security) (r : Restaurant) (store : List Ticket) (found : Option TokenPayload)
    → ((or_raise found unauthenticated >>= λ u.
          raise_if (not (is_member u.role kitchen_roles)) forbidden
          >> (raise_if (not (u.restaurant_id == r.id)) forbidden >> pure (some u.sub)))
        store).1
      ≡ store
decoded_same sec r store none = refl
decoded_same sec r store (some u) =
    guards_same (not (is_member u.role kitchen_roles)) (not (u.restaurant_id == r.id)) u.sub store

module _ (sec : Security) (r : Restaurant) (store : List Ticket) where
  named :
      (header : Option String) (o : Option ℕ) (found : Option String)
      → ((or_raise found unauthenticated >>= λ token.
            or_raise (decode_access_token sec token) unauthenticated >>= λ u.
            raise_if (not (is_member u.role kitchen_roles)) forbidden
            >> (raise_if (not (u.restaurant_id == r.id)) forbidden >> pure (some u.sub)))
          store).0
        ≡ ok o
      → bearer_token header ≡ found
      → HasMember sec r header o
  named header o none h e = absurd (ground arith)
  named header o (some token) h e =
      let (u, known, member, here, names) =
        decoded sec r store token o (decode_access_token sec token) h in
      (token, u, e, known, member, here, names)

  ticket_user_ok :
      (header : Option String) (o : Option ℕ)
      → (ticket_user sec r header store).0 ≡ ok o
      → HasMember sec r header o
  unfolding ticket_user
  ticket_user_ok header o h = named header o (bearer_token header) h refl

  ticket_for_ok :
      (required : Bool) (header : Option String) (o : Option ℕ)
      → (ticket_for sec r required header store).0 ≡ ok o
      → ((required ≡ false) × (o ≡ none)) ⊎ HasMember sec r header o
  unfolding ticket_for
  ticket_for_ok true header o h = inr (ticket_user_ok header o h)
  ticket_for_ok false header o h = inl (refl, ground arith)

  named_same :
      (found : Option String)
      → ((or_raise found unauthenticated >>= λ token.
            or_raise (decode_access_token sec token) unauthenticated >>= λ u.
            raise_if (not (is_member u.role kitchen_roles)) forbidden
            >> (raise_if (not (u.restaurant_id == r.id)) forbidden >> pure (some u.sub)))
          store).1
        ≡ store
  named_same none = refl
  named_same (some token) = decoded_same sec r store (decode_access_token sec token)

  -- The checks store nothing.
  ticket_for_same :
      (required : Bool) (header : Option String)
      → (ticket_for sec r required header store).1 ≡ store
  unfolding ticket_for ticket_user
  ticket_for_same true header = named_same (bearer_token header)
  ticket_for_same false header = refl

module _ (sec : Security) (now : ℕ) (fresh : String) (db : Db) (slug : String)
    (authorization : Option String) (store : List Ticket) (t : String) where
  issue : Restaurant → Option ℕ → Exec (List Ticket) HttpError String
  issue r user_id s = (
    ok fresh,
    issue_ws_ticket now fresh (record { restaurant_id = r.id; role = "staff"; user_id = user_id })
        s,
  )

  -- What a success of the handler shows, given what the slug finds.
  IsIssued : Option Restaurant → Type 0
  IsIssued o =
      (p : TicketPayload) × IsEntitled sec db slug authorization p
      × ((or_raise o restaurant_not_found >>= issue_for sec now fresh db authorization) store
          ≡ (ok fresh, issue_ws_ticket now fresh p store))

  from_slug :
      (o : Option Restaurant)
      → find_slug slug db ≡ o
      → ((or_raise o restaurant_not_found >>= issue_for sec now fresh db authorization) store).0
        ≡ ok t
      → IsIssued o
  unfolding issue_for IsIssued issue
  from_slug none e h = absurd (ground arith)
  from_slug (some r) e h =
      let m = ticket_for sec r (get_kitchen_pin_required r.id db) authorization in
      let (user_id, allowed, run) = >>=-inv m (issue r) store t h in
      (
        record { restaurant_id = r.id; role = "staff"; user_id = user_id },
        record {
          restaurant = r;
          active = e;
          bound = refl;
          user =
              ticket_for_ok sec r store (get_kitchen_pin_required r.id db) authorization user_id
                allowed;
        },
        run
            ∙ ap (issue r user_id)
                (ticket_for_same sec r store (get_kitchen_pin_required r.id db) authorization),
      )

  -- A ticket is only handed out where the restaurant is active and the caller may enter its kitchen;
  -- what is stored is a ticket for exactly that restaurant, and for the user that the token names.
  pub create_ws_ticket-IsEntitled :
      (create_ws_ticket sec now fresh db slug authorization store).0 ≡ ok t
      → (p : TicketPayload) × IsEntitled sec db slug authorization p
        × (create_ws_ticket sec now fresh db slug authorization store
            ≡ (ok fresh, issue_ws_ticket now fresh p store))
  unfolding create_ws_ticket IsIssued
  create_ws_ticket-IsEntitled h = from_slug (find_slug slug db) refl h
