-- ===== src/Delivery/Staff.antt =====
-- The handlers of qorder_api/api/kitchen_router.py and staff_table_router.py, compared under
-- different deliveries of events.
use goi_mon.Prelude.{
  ℕ, ◌≡◌, refl, sym, ap, ◌∙◌, String, Option, none, some, inl, inr, Bool-cases, ◌==◌, ◌&&◌,
}
use goi_mon.Sql.{select, first}
use goi_mon.Sql.Keyed.{find}
use goi_mon.Model.{Db, CancelledBy, OrderItemStatus, OrderItem, order_key, StaffCall, is_waiting}
use goi_mon.Realtime.{World, announce, publish}
use goi_mon.Realtime.Blind.{
  IsBlind, pure-IsBlind, gets-IsBlind, or_raise-IsBlind, on_db-IsBlind, >>=-IsBlind,
}
use goi_mon.Http.{HttpError, Env, unknown_item, unknown_session, checkout_conflict, unhandled}
use goi_mon.Auth.{TokenPayload}
use goi_mon.Items.{set_status, cancel_item}
use goi_mon.Calls.{ack, ack_found}
use goi_mon.Sessions.{no_row, CheckoutResult}
use goi_mon.Sessions.Checkout.{checkout}
use goi_mon.Sessions.Restore.{RestoreResult, restore, Action, restored, checked_out}
use goi_mon.Customer.Visits.{cancel_error}
use goi_mon.Kitchen.{
  find_tenant_item, set_error, session_of_order, announce_update, set_item_status,
  cancel_item_staff, active_statuses, ack_error, ack_staff_call,
}
use goi_mon.StaffTables.{
  find_tenant_session, answer_checkout, checkout_session, announce_closed, restore_error,
  announce_restore, answer_restore, restore_session,
}
use goi_mon.Delivery.{rescue-IsBlind, announce_cancel-IsBlind}

session_of_order-IsBlind : (order_id : ℕ) → IsBlind (session_of_order order_id)
unfolding session_of_order
session_of_order-IsBlind order_id =
    >>=-IsBlind _
      (λ found.
        >>=-IsBlind _ (λ o. pure-IsBlind HttpError o.table_session_id) _
          (or_raise-IsBlind found (unhandled no_row)))
      _ (gets-IsBlind HttpError (λ db. find order_key order_id db.orders))

announce_update-IsBlind :
    (restaurant_id session_id : ℕ) (x : OrderItem)
    → IsBlind (announce_update restaurant_id session_id x)
unfolding IsBlind announce_update announce publish
announce_update-IsBlind restaurant_id session_id x w w' e = (refl, e)

pub set_item_status-IsBlind :
    (now item_id : ℕ) (to : OrderItemStatus) (user : TokenPayload)
    → IsBlind (set_item_status now item_id to user)
unfolding set_item_status
set_item_status-IsBlind now item_id to user =
    >>=-IsBlind _
      (λ found.
        >>=-IsBlind _
          (λ own.
            >>=-IsBlind _
              (λ updated.
                >>=-IsBlind _
                  (λ session_id. announce_update-IsBlind user.restaurant_id session_id updated) _
                  (session_of_order-IsBlind updated.order_id))
              _
              (rescue-IsBlind set_error _
                (on_db-IsBlind (set_status now item_id to (some user.sub) user.restaurant_id))))
          _ (or_raise-IsBlind found unknown_item))
      _ (gets-IsBlind HttpError (find_tenant_item item_id user.restaurant_id))

pub cancel_item_staff-IsBlind :
    (now item_id : ℕ) (reason : Option String) (user : TokenPayload)
    → IsBlind (cancel_item_staff now item_id reason user)
unfolding cancel_item_staff
cancel_item_staff-IsBlind now item_id reason user =
    >>=-IsBlind _
      (λ found.
        >>=-IsBlind _
          (λ own.
            >>=-IsBlind _
              (λ updated.
                >>=-IsBlind _
                  (λ session_id.
                    announce_cancel-IsBlind user.restaurant_id session_id CancelledBy.staff
                      (some updated.order_id) updated)
                  _ (session_of_order-IsBlind updated.order_id))
              _
              (rescue-IsBlind cancel_error _ (
                on_db-IsBlind (
                  cancel_item now item_id CancelledBy.staff user.restaurant_id active_statuses
                    reason))))
          _ (or_raise-IsBlind found unknown_item))
      _ (gets-IsBlind HttpError (find_tenant_item item_id user.restaurant_id))

ack_found-IsBlind :
    (now actor restaurant_id : ℕ) (o : Option StaffCall)
    → IsBlind (ack_found now actor restaurant_id o)
unfolding IsBlind ack_found announce publish
ack_found-IsBlind now actor restaurant_id none w w' e = (refl, e)
ack_found-IsBlind now actor restaurant_id (some c) w w' e =
    elim (Bool-cases (is_waiting c.status)) [
      | inl k ↦ (rw k refl, rw (k, e) refl)
      | inr k ↦ (rw k refl, rw k e)
    ]

-- Two reads that found the same call.
read_alike :
    (now actor restaurant_id : ℕ) (o o' : Option StaffCall) (w w' : World)
    → o ≡ o'
    → w.db ≡ w'.db
    → ((ack_found now actor restaurant_id o w).0 ≡ (ack_found now actor restaurant_id o' w').0)
      × ((ack_found now actor restaurant_id o w).1.db
          ≡ (ack_found now actor restaurant_id o' w').1.db)
unfolding IsBlind
read_alike now actor restaurant_id o o' w w' h e =
    rw (sym h) (ack_found-IsBlind now actor restaurant_id o w w' e)

ack-IsBlind : (now call_id actor restaurant_id : ℕ) → IsBlind (ack now call_id actor restaurant_id)
unfolding IsBlind ack
ack-IsBlind now call_id actor restaurant_id w w' e =
    read_alike now actor restaurant_id
      (first (select (λ c. c.id == call_id && c.restaurant_id == restaurant_id) w.db.calls))
      (first (select (λ c. c.id == call_id && c.restaurant_id == restaurant_id) w'.db.calls)) w w'
      (ap
        (λ (d : Db).
          first (select (λ c. c.id == call_id && c.restaurant_id == restaurant_id) d.calls))
        e)
      e

pub ack_staff_call-IsBlind :
    (clock call_id : ℕ) (user : TokenPayload) → IsBlind (ack_staff_call clock call_id user)
unfolding ack_staff_call
ack_staff_call-IsBlind clock call_id user =
    rescue-IsBlind ack_error _ (ack-IsBlind clock call_id user.sub user.restaurant_id)

answer_checkout-IsBlind :
    (restaurant_id session_id : ℕ) (r : CheckoutResult)
    → IsBlind (answer_checkout restaurant_id session_id r)
unfolding IsBlind answer_checkout announce_closed announce publish
answer_checkout-IsBlind restaurant_id session_id r w w' e = (refl, e)

pub checkout_session-IsBlind :
    (now session_id : ℕ) (user : TokenPayload) → IsBlind (checkout_session now session_id user)
unfolding checkout_session
checkout_session-IsBlind now session_id user =
    >>=-IsBlind _
      (λ found.
        >>=-IsBlind _
          (λ own.
            >>=-IsBlind _
              (λ outcome.
                >>=-IsBlind _ (answer_checkout-IsBlind user.restaurant_id session_id) _
                  (or_raise-IsBlind outcome checkout_conflict))
              _
              (rescue-IsBlind unhandled _
                (on_db-IsBlind (checkout now session_id user.restaurant_id))))
          _ (or_raise-IsBlind found unknown_session))
      _ (gets-IsBlind HttpError (find_tenant_session session_id user.restaurant_id))

announce_restore-db :
    (a : Action) (restaurant_id session_id : ℕ) (r : RestoreResult) (w : World)
    → (announce_restore a restaurant_id session_id r w).db ≡ w.db
unfolding announce_restore announce_closed announce publish
announce_restore-db restored restaurant_id session_id r w = refl
announce_restore-db checked_out restaurant_id session_id r w = refl

answer_restore-IsBlind :
    (restaurant_id session_id : ℕ) (r : RestoreResult)
    → IsBlind (answer_restore restaurant_id session_id r)
unfolding IsBlind answer_restore
answer_restore-IsBlind restaurant_id session_id r w w' e = (
  refl,
  announce_restore-db r.action restaurant_id session_id r w
      ∙ e
      ∙ sym (announce_restore-db r.action restaurant_id session_id r w'),
)

pub restore_session-IsBlind :
    (env : Env) (session_id : ℕ) (user : TokenPayload)
    → IsBlind (restore_session env session_id user)
unfolding restore_session
restore_session-IsBlind env session_id user =
    >>=-IsBlind _
      (λ outcome.
        >>=-IsBlind _ (answer_restore-IsBlind user.restaurant_id session_id) _
          (or_raise-IsBlind outcome unknown_session))
      _
      (rescue-IsBlind restore_error _
        (on_db-IsBlind (restore env.meanwhile env.now env.clock session_id user.restaurant_id)))

module _ (w w' : World) (e : w.db ≡ w'.db) where
  -- From equal databases, the kitchen's change of a status, cancelling and acknowledgement give
  -- equal answers and equal databases, whatever becomes of the events.
  pub kitchen_undisturbed :
      (now item_id call_id : ℕ) (to : OrderItemStatus) (reason : Option String)
      (user : TokenPayload)
      → (((set_item_status now item_id to user w).0 ≡ (set_item_status now item_id to user w').0)
          × ((set_item_status now item_id to user w).1.db
              ≡ (set_item_status now item_id to user w').1.db))
        × (((cancel_item_staff now item_id reason user w).0
              ≡ (cancel_item_staff now item_id reason user w').0)
            × ((cancel_item_staff now item_id reason user w).1.db
                ≡ (cancel_item_staff now item_id reason user w').1.db))
        × (((ack_staff_call now call_id user w).0 ≡ (ack_staff_call now call_id user w').0)
            × ((ack_staff_call now call_id user w).1.db
                ≡ (ack_staff_call now call_id user w').1.db))
  unfolding IsBlind
  kitchen_undisturbed now item_id call_id to reason user = (
    set_item_status-IsBlind now item_id to user w w' e,
    cancel_item_staff-IsBlind now item_id reason user w w' e,
    ack_staff_call-IsBlind now call_id user w w' e,
  )

  -- From equal databases, the cashier's checkout and restoring of a session give equal answers
  -- and equal databases, whatever becomes of the events.
  pub cashier_undisturbed :
      (env : Env) (session_id : ℕ) (user : TokenPayload)
      → (((checkout_session env.now session_id user w).0
            ≡ (checkout_session env.now session_id user w').0)
          × ((checkout_session env.now session_id user w).1.db
              ≡ (checkout_session env.now session_id user w').1.db))
        × (((restore_session env session_id user w).0 ≡ (restore_session env session_id user w').0)
            × ((restore_session env session_id user w).1.db
                ≡ (restore_session env session_id user w').1.db))
  unfolding IsBlind
  cashier_undisturbed env session_id user = (
    checkout_session-IsBlind env.now session_id user w w' e,
    restore_session-IsBlind env session_id user w w' e,
  )
