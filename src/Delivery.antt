-- ===== src/Delivery.antt =====
-- The handlers of qorder_api/api/customer_router.py, compared under different deliveries of events.
pub mod Staff
use goi_mon.Prelude.{
  ℕ, ◌≡◌, refl, sym, ap, ◌∙◌, String, Bool, true, false, not, Option, none, some, List, [], ◌∷◌,
  Result, ok, err, Exec, pure, gets, modify, or_raise, raise_if, ◌>>=◌, ◌>>◌, Option-cases, inl,
  inr, Bool-cases, ◌==◌, map,
}
use goi_mon.Sql.{select, first}
use goi_mon.Model.{
  Db, TableSession, CancelledBy, OrderItemStatus, OrderItem, pending, MenuItem, is_open, is_waiting,
  StaffCall, Table, Restaurant,
}
use goi_mon.Realtime.{World, EventType, Payload, announce, publish, on_db}
use goi_mon.Realtime.Blind.{
  IsBlind, pure-IsBlind, gets-IsBlind, or_raise-IsBlind, on_db-IsBlind, raise_if-IsBlind,
  modify-IsBlind, >>=-IsBlind,
}
use goi_mon.Http.{
  HttpError, Env, rescue, resolve, open_session, find_table, find_restaurant, bad_qr,
  restaurant_inactive, unknown_item, invalid_body, session_not_open,
}
use goi_mon.Items.{cancel_item}
use goi_mon.Calls.{create, is_recent, get_cooldown, ack, ack_found, CallError}
use goi_mon.Customer.Orders.{
  OrderLine, is_valid_body, create_order, order_in_session, place_order, check_lines, returned,
  OrderResponse,
}
use goi_mon.Customer.Visits.{
  find_own_item, cancel_item_customer, cancel_in_session, announce_cancel, cancel_error, call_staff,
}

rescued :
    {E F A : Type 0} (h : E → F) (r r' : Result E A) (w w' : World)
    → r ≡ r'
    → w.db ≡ w'.db
    → ((rescue h (λ (_ : World). (r, w)) w).0 ≡ (rescue h (λ (_ : World). (r', w')) w').0)
      × ((rescue h (λ (_ : World). (r, w)) w).1.db ≡ (rescue h (λ (_ : World). (r', w')) w').1.db)
rescued h (ok a) r' w w' e k = rw (sym e) (refl, k)
rescued h (err x) r' w w' e k = rw (sym e) (refl, k)

pub rescue-IsBlind :
    {E F A : Type 0} (h : E → F) (m : Exec World E A) → IsBlind m → IsBlind (rescue h m)
unfolding IsBlind
rescue-IsBlind h m b w w' e =
    let (answers, dbs) = b w w' e in rescued h (m w).0 (m w').0 (m w).1 (m w').1 answers dbs

resolve-IsBlind : (qr_token : String) → IsBlind (resolve qr_token)
unfolding resolve
resolve-IsBlind qr_token =
    >>=-IsBlind _
      (λ found.
        >>=-IsBlind _
          (λ table.
            >>=-IsBlind _
              (λ active.
                >>=-IsBlind _ (λ r. pure-IsBlind HttpError (table, r)) _
                  (or_raise-IsBlind active restaurant_inactive))
              _ (gets-IsBlind HttpError (find_restaurant table.restaurant_id)))
          _ (or_raise-IsBlind found bad_qr))
      _ (gets-IsBlind HttpError (find_table qr_token))

pub open_session-IsBlind :
    (env : Env) (table_id restaurant_id : ℕ) (opened_by : Option ℕ)
    → IsBlind (open_session env table_id restaurant_id opened_by)
unfolding open_session
open_session-IsBlind env table_id restaurant_id opened_by = rescue-IsBlind _ _ (on_db-IsBlind _)

place_order-IsBlind :
    (env : Env) (restaurant_id : ℕ) (s : TableSession) (lines : List (OrderLine × MenuItem))
    → IsBlind (place_order env restaurant_id s lines)
unfolding IsBlind place_order announce publish
place_order-IsBlind env restaurant_id s lines w w' e = (refl, rw e refl)

returned-IsBlind : {A : Type 0} (r : Result HttpError A) → IsBlind (returned r)
unfolding IsBlind
returned-IsBlind r w w' e = (refl, e)

order_in_session-IsBlind :
    (env : Env) (restaurant_id : ℕ) (body : List OrderLine) (s : TableSession)
    → IsBlind (order_in_session env restaurant_id body s)
unfolding order_in_session
order_in_session-IsBlind env restaurant_id body s =
    >>=-IsBlind _
      (λ _.
        >>=-IsBlind _
          (λ _.
            >>=-IsBlind _
              (λ checked.
                >>=-IsBlind _ (place_order-IsBlind env restaurant_id s) _
                  (returned-IsBlind checked))
              _ (gets-IsBlind HttpError (λ db. check_lines restaurant_id db body)))
          _ (modify-IsBlind HttpError env.between))
      _ (raise_if-IsBlind (not (is_open s.status)) session_not_open)

pub create_order-IsBlind :
    (env : Env) (qr_token : String) (body : List OrderLine)
    → IsBlind (create_order env qr_token body)
unfolding create_order
create_order-IsBlind env qr_token body =
    >>=-IsBlind _
      (λ _.
        >>=-IsBlind _
          (λ (table, restaurant).
            >>=-IsBlind _ (order_in_session-IsBlind env restaurant.id body) _
              (open_session-IsBlind env table.id restaurant.id none))
          _ (resolve-IsBlind qr_token))
      _ (raise_if-IsBlind (not (is_valid_body body)) invalid_body)

pub announce_cancel-IsBlind :
    (restaurant_id session_id : ℕ) (who : CancelledBy) (order_id : Option ℕ) (x : OrderItem)
    → IsBlind (announce_cancel restaurant_id session_id who order_id x)
unfolding IsBlind announce_cancel announce publish
announce_cancel-IsBlind restaurant_id session_id who order_id x w w' e = (refl, e)

cancel_in_session-IsBlind :
    (env : Env) (item_id : ℕ) (reason : Option String) (restaurant_id : ℕ) (s : TableSession)
    → IsBlind (cancel_in_session env item_id reason restaurant_id s)
unfolding cancel_in_session
cancel_in_session-IsBlind env item_id reason restaurant_id s =
    >>=-IsBlind _
      (λ _.
        >>=-IsBlind _
          (λ found.
            >>=-IsBlind _
              (λ own.
                >>=-IsBlind _ (announce_cancel-IsBlind restaurant_id s.id CancelledBy.customer none)
                  _
                  (rescue-IsBlind cancel_error _ (
                    on_db-IsBlind (
                      cancel_item env.now item_id CancelledBy.customer restaurant_id (pending ∷ [])
                        reason))))
              _ (or_raise-IsBlind found unknown_item))
          _ (gets-IsBlind HttpError (find_own_item item_id s.id restaurant_id)))
      _ (modify-IsBlind HttpError env.between)

pub cancel_item_customer-IsBlind :
    (env : Env) (qr_token : String) (item_id : ℕ) (reason : Option String)
    → IsBlind (cancel_item_customer env qr_token item_id reason)
unfolding cancel_item_customer
cancel_item_customer-IsBlind env qr_token item_id reason =
    >>=-IsBlind _
      (λ (table, restaurant).
        >>=-IsBlind _ (cancel_in_session-IsBlind env item_id reason restaurant.id) _
          (open_session-IsBlind env table.id restaurant.id none))
      _ (resolve-IsBlind qr_token)

create-IsBlind :
    (gap : Db → Db) (now call_id table_id session_id restaurant_id : ℕ)
    → IsBlind (create {E = HttpError} gap now call_id table_id session_id restaurant_id)
unfolding IsBlind create announce publish
create-IsBlind gap now call_id table_id session_id restaurant_id w w' e =
    elim (Option-cases
      (first (select (is_recent now table_id (get_cooldown restaurant_id w'.db)) w'.db.calls))) [
        | inl k ↦ (rw (e, k) refl, rw (e, k) refl)
        | inr (c, k) ↦ (rw (e, k) refl, rw (e, k) refl)
      ]

pub call_staff-IsBlind : (env : Env) (qr_token : String) → IsBlind (call_staff env qr_token)
unfolding call_staff
call_staff-IsBlind env qr_token =
    >>=-IsBlind _
      (λ (table, restaurant).
        >>=-IsBlind _
          (λ s.
            >>=-IsBlind _
              (λ _. create-IsBlind env.ringing env.now env.call_id table.id s.id restaurant.id) _
              (modify-IsBlind HttpError env.between))
          _ (open_session-IsBlind env table.id restaurant.id none))
      _ (resolve-IsBlind qr_token)

-- From equal databases, a customer's order, cancelling and call for staff give equal answers and
-- equal databases, whatever was published before, whether Redis takes the events or not, and
-- whatever stamps the clock gives.
pub customer_undisturbed :
    (env : Env) (qr_token : String) (body : List OrderLine) (item_id : ℕ) (reason : Option String)
    (w w' : World)
    → w.db ≡ w'.db
    → (((create_order env qr_token body w).0 ≡ (create_order env qr_token body w').0)
        × ((create_order env qr_token body w).1.db ≡ (create_order env qr_token body w').1.db))
      × (((cancel_item_customer env qr_token item_id reason w).0
            ≡ (cancel_item_customer env qr_token item_id reason w').0)
          × ((cancel_item_customer env qr_token item_id reason w).1.db
              ≡ (cancel_item_customer env qr_token item_id reason w').1.db))
      × (((call_staff env qr_token w).0 ≡ (call_staff env qr_token w').0)
          × ((call_staff env qr_token w).1.db ≡ (call_staff env qr_token w').1.db))
unfolding IsBlind
customer_undisturbed env qr_token body item_id reason w w' e = (
  create_order-IsBlind env qr_token body w w' e,
  cancel_item_customer-IsBlind env qr_token item_id reason w w' e,
  call_staff-IsBlind env qr_token w w' e,
)
