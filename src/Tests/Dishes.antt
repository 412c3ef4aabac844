-- ===== src/Tests/Dishes.antt =====
-- Dishes: ordering, cooking, serving, cancelling, and the board.
use goi_mon.Prelude.{
  ℕ, ◌+◌, ◌*◌, ◌-◌, ◌≡◌, ◌≢◌, refl, none, some, arith, ok, err, List, [], ◌∷◌, ◌⊎◌, length, Bool,
  All,
}
use goi_mon.Sql.{select}
use goi_mon.Sql.Keyed.{find}
use goi_mon.Model.{Db, OrderItem, pending, cooking, find_item, opened, second}
use goi_mon.Items.{ItemError, set_status, compute_overdue_level}
use goi_mon.Items.Diagram.{cook, IsMoved}
use goi_mon.Items.Moves.{IsPermitted, set_status_permitted, set_status_cases}
use goi_mon.Items.Overdue.{IsLevel, overdue-IsLevel}
use goi_mon.Items.Undo.{set_status_unbills}
use goi_mon.Sessions.{in_session, served_total, price_of}
use goi_mon.Customer.Menu.Sorting.{IsAscending}
use goi_mon.Customer.Orders.{OrderLine, OrderResponse, order_in_session}
use goi_mon.Customer.Orders.Snapshots.{IsOrdered, order_in_session-IsOrdered}
use goi_mon.Kitchen.{BoardItem, get_kitchen_board, on_board, set_item_status, cancel_item_staff}
use goi_mon.Kitchen.Board.{IsEntry, get_kitchen_board_lem}
use goi_mon.Kitchen.Isolation.{foreign, kitchen_isolated}
use goi_mon.Tests.Data.{noon, lunch, lunch-IsValid, eaten, awaited, visit, world, request, waiter}

set_status_permitted_example :
    (y : OrderItem) × IsMoved noon cooking (some 7) awaited y
    × ((set_status noon 51 cooking (some 7) 1 lunch).0 ≡ ok y)
    × (find_item 51 (set_status noon 51 cooking (some 7) 1 lunch).1 ≡ some y)
    × ((j : ℕ)
        → j ≢ 51
        → find_item j (set_status noon 51 cooking (some 7) 1 lunch).1 ≡ find_item j lunch)
unfolding find
set_status_permitted_example =
    set_status_permitted noon 51 cooking (some 7) 1 lunch lunch-IsValid.items awaited refl
      (record { tenant = refl; edge = cook; in_time = λ e. cc })

set_status_cases_example :
    ((x : OrderItem) × (y : OrderItem) × (find_item 51 lunch ≡ some x)
      × IsPermitted noon 1 cooking x
      × IsMoved noon cooking (some 7) x y
      × ((set_status noon 51 cooking (some 7) 1 lunch).0 ≡ ok y)
      × (find_item 51 (set_status noon 51 cooking (some 7) 1 lunch).1 ≡ some y)
      × ((j : ℕ)
          → j ≢ 51
          → find_item j (set_status noon 51 cooking (some 7) 1 lunch).1 ≡ find_item j lunch))
    ⊎ ((e : ItemError) × (set_status noon 51 cooking (some 7) 1 lunch ≡ (err e, lunch)))
set_status_cases_example = set_status_cases noon 51 cooking (some 7) 1 lunch lunch-IsValid.items

set_status_unbills_example :
    served_total 30 (set_status noon 50 pending (some 7) 1 lunch).1 + price_of eaten
    ≡ served_total 30 lunch
unfolding find in_session
set_status_unbills_example =
    set_status_unbills noon 30 lunch eaten (some 7) lunch-IsValid.items refl refl refl
      (179 * (60 * second), refl, omega arith)

overdue-IsLevel_example :
    (k : ℕ) × (compute_overdue_level 10 0 noon ≡ some k) × IsLevel 10 (noon - 0) k
overdue-IsLevel_example = overdue-IsLevel 10 0 noon (omega arith)

-- Two bowls of a dish that is on sale, and one of a dish that is sold out.
abbrev two_bowls : OrderLine
two_bowls = record { menu_item_id = 20; quantity = 2; note = none }

abbrev sold_out_bowl : OrderLine
sold_out_bowl = record { menu_item_id = 21; quantity = 1; note = none }

abbrev answer : OrderResponse
answer = record {
  id = 91;
  table_session_id = 30;
  created_at = noon;
  items =
      record {
        id = 92;
        restaurant_id = 1;
        order_id = 91;
        menu_item_id = 20;
        name_snapshot = "Pho bo";
        price_snapshot = 5000;
        prep_time_snapshot = 10;
        quantity = 2;
        note = none;
        status = pending;
        requested_at = noon;
        served_by = none;
        served_at = none;
        cancelled_by = none;
        cancelled_at = none;
        cancel_reason = none;
      }
      ∷ [];
}

order_in_session-IsOrdered_example :
    (visit.status ≡ opened)
    × IsOrdered request 1
        (two_bowls ∷ [])
        visit
        lunch
        (order_in_session request 1 (two_bowls ∷ []) visit (world lunch)).1.db
        answer
unfolding order_in_session
order_in_session-IsOrdered_example =
    order_in_session-IsOrdered request 1 (two_bowls ∷ []) visit (world lunch) answer refl

-- Another restaurant's dish waits in the same table.
abbrev shared : Db
shared = record lunch {
  items = eaten ∷ awaited ∷ record awaited { id = 52; restaurant_id = 2 } ∷ [];
}

get_kitchen_board_lem_example :
    (bs : List BoardItem) × (get_kitchen_board noon waiter (world shared) ≡ (ok bs, world shared))
    × All (IsEntry 1 noon) bs
    × IsAscending (λ (b : BoardItem). b.item.requested_at) bs
    × ((p : OrderItem → Bool)
        → length (select (λ (b : BoardItem). p b.item) bs)
          ≡ length (select p (select (on_board 1) shared.items)))
get_kitchen_board_lem_example = get_kitchen_board_lem noon waiter (world shared)

kitchen_isolated_example :
    (foreign 1 (set_item_status noon 51 cooking waiter (world shared)).1.db ≡ foreign 1 shared)
    × (foreign 1 (cancel_item_staff noon 51 none waiter (world shared)).1.db ≡ foreign 1 shared)
kitchen_isolated_example = kitchen_isolated noon 51 waiter (world shared) cooking none
