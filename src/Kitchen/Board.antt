-- ===== src/Kitchen/Board.antt =====
-- What the kitchen board shows.
use goi_mon.Prelude.{
  ℕ, ◌≤◌, ◌≡◌, refl, ◌∙◌, Bool, true, List, [], ◌∷◌, map, arith, ok, All, eq_of_==, &&_left,
  &&_right, length, Bool-cases, inl, inr,
}
use goi_mon.Sql.{select}
use goi_mon.Model.{OrderItem, OrderItemStatus, in_status}
use goi_mon.Realtime.{World}
use goi_mon.Auth.{TokenPayload}
use goi_mon.Items.{compute_overdue_level}
use goi_mon.Items.Diagram.{IsActive, moves}
use goi_mon.Customer.Menu.{order_by}
use goi_mon.Customer.Menu.Sorting.{
  IsAscending, order_by-IsAscending, length-select-order_by, All-order_by,
}
use goi_mon.Customer.Visits.{requested_order}
use goi_mon.Kitchen.{active_statuses, BoardItem, board_item, on_board, get_kitchen_board}

-- An entry of the board of restaurant `rid`: its own item, still to be worked on, with the level
-- that its waiting time gives it.
pub record IsEntry (rid clock : ℕ) (b : BoardItem) : Type 0 where
  pub own : b.item.restaurant_id ≡ rid
  pub active : IsActive b.item.status
  pub level :
      b.overdue_level ≡ compute_overdue_level b.item.prep_time_snapshot b.item.requested_at clock

All-select :
    (P : OrderItem → Type 0) (p : OrderItem → Bool) (xs : List OrderItem)
    → ((x : OrderItem) → p x ≡ true → P x)
    → All P (select p xs)
unfolding select
All-select P p [] h = tt
All-select P p (x ∷ xs) h = elim (Bool-cases (p x)) [
  | inl e ↦ rw e (h x e, All-select P p xs h)
  | inr e ↦ rw e (All-select P p xs h)
]

All-board :
    (clock : ℕ) (P : BoardItem → Type 0) (xs : List OrderItem)
    → All (λ x. P (board_item clock x)) xs
    → All P (map (board_item clock) xs)
All-board clock P [] h = tt
All-board clock P (x ∷ xs) (p, h) = (p, All-board clock P xs h)

board-IsAscending :
    (clock : ℕ) (xs : List OrderItem)
    → IsAscending requested_order xs
    → IsAscending (λ (b : BoardItem). b.item.requested_at) (map (board_item clock) xs)
unfolding board_item
board-IsAscending clock [] h = tt
board-IsAscending clock (x ∷ xs) (below, h) = (
  All-board clock (λ b. x.requested_at ≤ b.item.requested_at) xs below,
  board-IsAscending clock xs h,
)

status-IsActive : (s : OrderItemStatus) → in_status active_statuses s ≡ true → IsActive s
status-IsActive s h = grind (arith, moves)

length-board :
    (clock : ℕ) (p : OrderItem → Bool) (xs : List OrderItem)
    → length (select (λ (b : BoardItem). p b.item) (map (board_item clock) xs))
      ≡ length (select p xs)
unfolding select board_item
length-board clock p [] = refl
length-board clock p (x ∷ xs) = ground (arith, length-board clock p xs)

module _ (clock : ℕ) (user : TokenPayload) (w : World) where
  -- The kitchen board shows items of the user's restaurant only, unfinished ones only, each with
  -- the level of its waiting time, the longest waiting one first; for every test of items, as
  -- many of them pass on the board as among the unfinished items of the restaurant; and reading
  -- it changes nothing.
  pub get_kitchen_board_lem :
      (bs : List BoardItem) × (get_kitchen_board clock user w ≡ (ok bs, w))
      × All (IsEntry user.restaurant_id clock) bs
      × IsAscending (λ (b : BoardItem). b.item.requested_at) bs
      × ((p : OrderItem → Bool)
          → length (select (λ (b : BoardItem). p b.item) bs)
            ≡ length (select p (select (on_board user.restaurant_id) w.db.items)))
  unfolding get_kitchen_board on_board board_item
  get_kitchen_board_lem =
      let shown = select (on_board user.restaurant_id) w.db.items in
      (
        map (board_item clock) (order_by requested_order shown),
        refl,
        All-board clock (IsEntry user.restaurant_id clock) (order_by requested_order shown) (
            All-order_by requested_order
              (λ x. IsEntry user.restaurant_id clock (board_item clock x)) shown
              (All-select _ (on_board user.restaurant_id) w.db.items (λ x h. record {
                own = eq_of_== x.restaurant_id user.restaurant_id (&&_left _ _ h);
                active = status-IsActive x.status (&&_right _ _ h);
                level = refl;
              }))),
        board-IsAscending clock (order_by requested_order shown)
            (order_by-IsAscending requested_order shown),
        λ p.
            length-board clock p (order_by requested_order shown)
            ∙ length-select-order_by requested_order p shown,
      )
