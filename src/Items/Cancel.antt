-- ===== src/Items/Cancel.antt =====
-- What `cancel_item` does, on every branch.
use goi_mon.Prelude.{
  ℕ, ◌≡◌, ◌≢◌, refl, ◌∙◌, ap, String, Bool, true, false, ◌&&◌, Option, none, some, List, arith,
  ◌==◌, ok, err, ◌⊎◌, inl, inr, ==_refl,
}
use goi_mon.Sql.Keyed.{IsKeyed, kept}
use goi_mon.Model.{
  OrderItemStatus, cancelled, CancelledBy, in_status, OrderItem, Db, find_item, item_key,
}
use goi_mon.Items.{conflict, cancel_row, cancel_item}
use goi_mon.Items.Swap.{swap, swap_hit, swap_miss, swap_ne, find-swap_hit}

module _ (now i : ℕ) (who : CancelledBy) (r : ℕ) (allowed : List OrderItemStatus)
    (reason : Option String) where
  -- The tests of the query after `id = :item_id`.
  abbrev pub cancellable : OrderItem → Bool
  cancellable x = x.restaurant_id == r && in_status allowed x.status

  pub cancel_item-swap :
      (db : Db)
      → cancel_item now i who r allowed reason db
        ≡ swap now i cancellable (cancel_row now who reason) db
  unfolding cancel_item
  cancel_item-swap db = refl

  pub cancel_row-id : (x : OrderItem) → (cancel_row now who reason x).id ≡ x.id
  unfolding cancel_row
  cancel_row-id x = refl

  module _ (db : Db) (keyed : IsKeyed item_key db.items) where
    -- On a database with unique item ids, cancelling an item of the given restaurant whose status
    -- is among the allowed ones succeeds: the item is stored and returned as cancelled, with who
    -- did it, when and why, and no other item changes.
    pub cancel_item_allowed :
        (x : OrderItem)
        → find_item i db ≡ some x
        → x.restaurant_id ≡ r
        → in_status allowed x.status ≡ true
        → let (res, db') = cancel_item now i who r allowed reason db in
          let x' = record x {
            status = cancelled;
            cancelled_by = some who;
            cancelled_at = some now;
            cancel_reason = reason;
          } in
          (res ≡ ok x')
          × (find_item i db' ≡ some x')
          × ((j : ℕ) → j ≢ i → find_item j db' ≡ find_item j db)
    unfolding cancel_row
    cancel_item_allowed x e own may =
        let pass : cancellable x ≡ true = rw (may, own, ==_refl r) in
        rw (cancel_item-swap db) (
          ap (λ t. t.0) (swap_hit now i cancellable (cancel_row now who reason) db keyed x e pass),
          find-swap_hit now i cancellable (cancel_row now who reason) db keyed cancel_row-id x e
              pass,
          swap_ne now i cancellable (cancel_row now who reason) db keyed cancel_row-id,
        )

    -- Otherwise it is a conflict, and nothing is written.
    pub cancel_item_refused :
        (find_item i db ≡ none)
          ⊎ ((x : OrderItem) × (find_item i db ≡ some x)
              × ((x.restaurant_id ≢ r) ⊎ (in_status allowed x.status ≡ false)))
        → cancel_item now i who r allowed reason db ≡ (err conflict, db)
    cancel_item_refused h =
        cancel_item-swap db
        ∙ swap_miss now i cancellable (cancel_row now who reason) db keyed (out h)
      where
        out :
            (find_item i db ≡ none)
              ⊎ ((x : OrderItem) × (find_item i db ≡ some x)
                  × ((x.restaurant_id ≢ r) ⊎ (in_status allowed x.status ≡ false)))
            → kept item_key cancellable (find_item i db) ≡ none
        out (inl e) = rw e
        out (inr (x, e, w)) = rw e (ground arith)
