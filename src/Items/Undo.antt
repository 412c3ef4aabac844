-- ===== src/Items/Undo.antt =====
-- The undo of a serving and the bill of a session.
use goi_mon.Prelude.{
  ℕ, ◌+◌, ◌≡◌, ◌≢◌, refl, Bool, true, false, ◌&&◌, Option, some, List, [], ◌∷◌, arith, ◌==◌, All,
  sum_of, subst, eq_of_==, Bool-cases, inl, inr,
}
use goi_mon.Sql.{select, update}
use goi_mon.Sql.Keyed.{find, IsKeyed}
use goi_mon.Model.{OrderItem, pending, served, Db, find_item, item_key}
use goi_mon.Items.{set_row, set_status, touch_order_session, allowed_from}
use goi_mon.Items.Diagram.{undo}
use goi_mon.Items.Moves.{ServedRecently, test, test_of_permitted, set_status-swap}
use goi_mon.Items.Swap.{swap_hit}
use goi_mon.Sessions.{to_bill, price_of, served_total, in_session}

module _ (i : ℕ) (p q : OrderItem → Bool) (f : OrderItem → OrderItem) where
  absent :
      (xs : List OrderItem)
      → All (λ y. y.id ≢ i) xs
      → select q (update (λ x. x.id == i && p x) f xs) ≡ select q xs
  unfolding select update
  absent [] h = refl
  absent (x ∷ xs) (n, h) = ground (arith, absent xs h)

  -- Taking one row out of a selection takes its part out of every sum.
  sum-without :
      (g : OrderItem → ℕ) (xs : List OrderItem) (x : OrderItem)
      → IsKeyed item_key xs
      → find item_key i xs ≡ some x
      → p x ≡ true
      → q x ≡ true
      → q (f x) ≡ false
      → sum_of g (select q (update (λ y. y.id == i && p y) f xs)) + g x ≡ sum_of g (select q xs)
  unfolding select update find
  sum-without g [] x k e hit before after = absurd (ground arith)
  sum-without g (y ∷ ys) x (n, k) e hit before after = elim (Bool-cases (y.id == i)) [
    | inl here ↦
        let same : y ≡ x = ground arith in
        let rest : select q (update (λ z. z.id == i && p z) f ys) ≡ select q ys =
          absent ys (subst (λ k. All (λ z. z.id ≢ k) ys) (eq_of_== y.id i here) n) in
        rw (here, same, hit, after, before, rest) (omega arith)
    | inr there ↦
        let rest : sum_of g (select q (update (λ z. z.id == i && p z) f ys)) + g x
            ≡ sum_of g (select q ys) =
          sum-without g ys x k (ground arith) hit before after in
        rw there (ground (arith, rest))
  ]

-- On a database with unique item ids, setting a served item back to pending within 120 seconds of
-- its serving takes its price times quantity off the bill of its session, whatever the status of
-- that session is, so also after a checkout froze the total.
pub set_status_unbills :
    (now sid : ℕ) (db : Db) (x : OrderItem) (actor : Option ℕ)
    → IsKeyed item_key db.items
    → find_item x.id db ≡ some x
    → x.status ≡ served
    → in_session sid db.orders x ≡ true
    → ServedRecently now x
    → served_total sid (set_status now x.id pending actor x.restaurant_id db).1 + price_of x
      ≡ served_total sid db
unfolding served_total touch_order_session
set_status_unbills now sid db x actor keyed e s mine recent =
    rw
      (
        set_status-swap now x.id pending actor x.restaurant_id (served ∷ [])
            (unfold allowed_from in refl) db,
        swap_hit now x.id (undoable x.restaurant_id) (set_row now pending actor) db keyed x e pass,
      )
      (sum-without x.id (undoable x.restaurant_id) (to_bill sid db) (set_row now pending actor)
        price_of db.items x keyed e pass (unfold to_bill in rw (mine, s))
        (unfold to_bill set_row in ground arith))
  where
    undoable : ℕ → OrderItem → Bool
    undoable r = test now x.id pending actor r (served ∷ [])

    pass : undoable x.restaurant_id x ≡ true
    pass =
        test_of_permitted now x.id pending actor x.restaurant_id (served ∷ []) x
          (record { tenant = refl; edge = rw s undo; in_time = λ _. recent }) (rw s)
