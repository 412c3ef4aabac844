-- ===== src/Kitchen/Isolation.antt =====
-- Tenants: the handlers of qorder_api/api/kitchen_router.py and the items of other restaurants.
use goi_mon.Prelude.{
  ℕ, ◌≡◌, refl, ◌∙◌, ap, String, Bool, true, not, Option, none, some, List, arith, ◌==◌, Exec,
  Result, ok, err, or_raise, gets, ◌>>=◌, pure,
}
use goi_mon.Sql.{select, update}
use goi_mon.Sql.Rows.{select-update_disjoint}
use goi_mon.Model.{OrderItem, OrderItemStatus, CancelledBy, Db, order_key}
use goi_mon.Sql.Keyed.{find}
use goi_mon.Sessions.{no_row}
use goi_mon.Realtime.{World, on_db, announce, publish}
use goi_mon.Http.{HttpError, rescue, unknown_item, unhandled}
use goi_mon.Auth.{TokenPayload}
use goi_mon.Items.{
  set_status, cancel_item, may_set, may_cancel, update_item, after_cas, touch_order_session,
  allowed_from, set_row, cancel_row,
}
use goi_mon.Customer.Visits.{announce_cancel, cancel_error}
use goi_mon.Kitchen.{
  find_tenant_item, set_error, session_of_order, announce_update, set_item_status,
  cancel_item_staff, active_statuses,
}

-- The items of every other restaurant.
abbrev pub foreign : ℕ → Db → List OrderItem
foreign rid db = select (λ x. not (x.restaurant_id == rid)) db.items

-- A step that leaves the items of every other restaurant alone.
unfoldable pub IsLocal : {E A : Type 0} → ℕ → Exec World E A → Type 0
IsLocal rid m = (w : World) → foreign rid (m w).1.db ≡ foreign rid w.db

module _ {E A B : Type 0} (rid : ℕ) (f : A → Exec World E B) (g : (a : A) → IsLocal rid (f a)) where
  after :
      (r : Result E A) (w : World)
      → foreign rid (((λ (_ : World). (r, w)) >>= f) w).1.db ≡ foreign rid w.db
  unfolding IsLocal
  after (ok a) w = g a w
  after (err x) w = refl

  >>=-IsLocal : (m : Exec World E A) → IsLocal rid m → IsLocal rid (m >>= f)
  unfolding IsLocal
  >>=-IsLocal m b w = after (m w).0 (m w).1 ∙ b w

pure-IsLocal : {A : Type 0} (E : Type 0) (rid : ℕ) (a : A) → IsLocal rid (pure {E = E} a)
unfolding IsLocal
pure-IsLocal E rid a w = refl

or_raise-IsLocal : {E A : Type 0} (rid : ℕ) (o : Option A) (x : E) → IsLocal rid (or_raise o x)
unfolding IsLocal
or_raise-IsLocal rid none x w = refl
or_raise-IsLocal rid (some a) x w = refl

rescued :
    {E F A : Type 0} (rid : ℕ) (h : E → F) (r : Result E A) (w : World)
    → (rescue h (λ (_ : World). (r, w)) w).1.db ≡ w.db
rescued rid h (ok a) w = refl
rescued rid h (err x) w = refl

-- A service call on the database, with its errors translated.
service-IsLocal :
    {E F A : Type 0} (rid : ℕ) (h : E → F) (m : Exec Db E A)
    → ((db : Db) → foreign rid (m db).1 ≡ foreign rid db)
    → IsLocal rid (rescue h (on_db m))
unfolding IsLocal
service-IsLocal rid h m keeps w =
    ap (foreign rid) (rescued rid h (m w.db).0 (record w { db = (m w.db).1 })) ∙ keeps w.db

after_cas-foreign :
    (rid now : ℕ) (o : Option OrderItem) (db : Db)
    → foreign rid (after_cas now o db).1 ≡ foreign rid db
unfolding after_cas touch_order_session
after_cas-foreign rid now none db = refl
after_cas-foreign rid now (some x) db = refl

-- An update of own items, which stay own, leaves the foreign ones as they are.
update-foreign :
    (rid now : ℕ) (p : OrderItem → Bool) (f : OrderItem → OrderItem) (o : Option OrderItem)
    (db : Db)
    → ((x : OrderItem) → p x ≡ true → (x.restaurant_id == rid) ≡ true)
    → ((x : OrderItem) → (f x).restaurant_id ≡ x.restaurant_id)
    → foreign rid (after_cas now o (record db { items = update p f db.items })).1 ≡ foreign rid db
update-foreign rid now p f o db own same =
    after_cas-foreign rid now o (record db { items = update p f db.items })
    ∙ select-update_disjoint (λ x. not (x.restaurant_id == rid)) p f db.items
        (λ x h. ap not (own x h)) (λ x h. rw (same x) (ap not (own x h)))

set_row-restaurant_id :
    (now : ℕ) (to : OrderItemStatus) (actor : Option ℕ) (x : OrderItem)
    → (set_row now to actor x).restaurant_id ≡ x.restaurant_id
unfolding set_row
set_row-restaurant_id now to actor x = ground arith

set_with :
    (now i : ℕ) (to : OrderItemStatus) (actor : Option ℕ) (rid : ℕ)
    (allowed : Option (List OrderItemStatus)) (db : Db)
    → allowed_from to ≡ allowed
    → foreign rid (set_status now i to actor rid db).1 ≡ foreign rid db
unfolding set_status update_item
set_with now i to actor rid none db e = rw e refl
set_with now i to actor rid (some ss) db e = rw e (
    update-foreign rid now (may_set now i to rid ss) (set_row now to actor) _ db
      (λ x h. unfold may_set in ground arith) (set_row-restaurant_id now to actor))

cancel-foreign :
    (now i : ℕ) (who : CancelledBy) (rid : ℕ) (allowed : List OrderItemStatus)
    (reason : Option String) (db : Db)
    → foreign rid (cancel_item now i who rid allowed reason db).1 ≡ foreign rid db
unfolding cancel_item update_item
cancel-foreign now i who rid allowed reason db =
    update-foreign rid now (may_cancel i rid allowed) (cancel_row now who reason) _ db
      (λ x h. unfold may_cancel in ground arith) (λ x. unfold cancel_row in refl)

gets-IsLocal :
    {A : Type 0} (E : Type 0) (rid : ℕ) (f : Db → A)
    → IsLocal rid (gets {E = E} (λ (w : World). f w.db))
unfolding IsLocal
gets-IsLocal E rid f w = refl

session_of_order-IsLocal : (rid order_id : ℕ) → IsLocal rid (session_of_order order_id)
unfolding session_of_order
session_of_order-IsLocal rid order_id =
    >>=-IsLocal rid _
      (λ found.
        >>=-IsLocal rid _ (λ o. pure-IsLocal HttpError rid o.table_session_id) _
          (or_raise-IsLocal rid found (unhandled no_row)))
      _ (gets-IsLocal HttpError rid (λ db. find order_key order_id db.orders))

announce_update-IsLocal :
    (rid restaurant_id session_id : ℕ) (x : OrderItem)
    → IsLocal rid (announce_update restaurant_id session_id x)
unfolding IsLocal announce_update announce publish
announce_update-IsLocal rid restaurant_id session_id x w = refl

announce_cancel-IsLocal :
    (rid restaurant_id session_id : ℕ) (who : CancelledBy) (order_id : Option ℕ) (x : OrderItem)
    → IsLocal rid (announce_cancel restaurant_id session_id who order_id x)
unfolding IsLocal announce_cancel announce publish
announce_cancel-IsLocal rid restaurant_id session_id who order_id x w = refl

set_item_status-IsLocal :
    (now item_id : ℕ) (to : OrderItemStatus) (user : TokenPayload)
    → IsLocal user.restaurant_id (set_item_status now item_id to user)
unfolding set_item_status
set_item_status-IsLocal now item_id to user =
    >>=-IsLocal _ _
      (λ found.
        >>=-IsLocal _ _
          (λ own.
            >>=-IsLocal _ _
              (λ updated.
                >>=-IsLocal _ _
                  (λ session_id. announce_update-IsLocal _ user.restaurant_id session_id updated) _
                  (session_of_order-IsLocal _ updated.order_id))
              _
              (service-IsLocal _ set_error
                (set_status now item_id to (some user.sub) user.restaurant_id)
                (λ db.
                  set_with now item_id to (some user.sub) user.restaurant_id (allowed_from to) db
                    refl)))
          _ (or_raise-IsLocal _ found unknown_item))
      _ (gets-IsLocal HttpError _ (find_tenant_item item_id user.restaurant_id))

cancel_item_staff-IsLocal :
    (now item_id : ℕ) (reason : Option String) (user : TokenPayload)
    → IsLocal user.restaurant_id (cancel_item_staff now item_id reason user)
unfolding cancel_item_staff
cancel_item_staff-IsLocal now item_id reason user =
    >>=-IsLocal _ _
      (λ found.
        >>=-IsLocal _ _
          (λ own.
            >>=-IsLocal _ _
              (λ updated.
                >>=-IsLocal _ _
                  (λ session_id.
                    announce_cancel-IsLocal _ user.restaurant_id session_id CancelledBy.staff
                      (some updated.order_id) updated)
                  _ (session_of_order-IsLocal _ updated.order_id))
              _
              (service-IsLocal _ cancel_error
                (cancel_item now item_id CancelledBy.staff user.restaurant_id active_statuses
                  reason)
                (cancel-foreign now item_id CancelledBy.staff user.restaurant_id active_statuses
                  reason)))
          _ (or_raise-IsLocal _ found unknown_item))
      _ (gets-IsLocal HttpError _ (find_tenant_item item_id user.restaurant_id))

module _ (now item_id : ℕ) (user : TokenPayload) (w : World) where
  -- Whatever status a member of the staff sets or whatever item they cancel, and whether it
  -- succeeds or not, the items of all other restaurants are as before.
  pub kitchen_isolated :
      (to : OrderItemStatus) (reason : Option String)
      → (foreign user.restaurant_id (set_item_status now item_id to user w).1.db
          ≡ foreign user.restaurant_id w.db)
        × (foreign user.restaurant_id (cancel_item_staff now item_id reason user w).1.db
            ≡ foreign user.restaurant_id w.db)
  unfolding IsLocal
  kitchen_isolated to reason = (
    set_item_status-IsLocal now item_id to user w,
    cancel_item_staff-IsLocal now item_id reason user w,
  )

  -- An item that is not there, or not of the own restaurant, is answered with 404 either way, and
  -- nothing is written or announced.
  pub kitchen_unknown :
      (to : OrderItemStatus) (reason : Option String)
      → find_tenant_item item_id user.restaurant_id w.db ≡ none
      → (set_item_status now item_id to user w ≡ (err unknown_item, w))
        × (cancel_item_staff now item_id reason user w ≡ (err unknown_item, w))
  unfolding set_item_status cancel_item_staff
  kitchen_unknown to reason e = (rw e refl, rw e refl)
