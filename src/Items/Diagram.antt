-- ===== src/Items/Diagram.antt =====
-- The state diagram of an order item, and what a move along it changes.
use goi_mon.Prelude.{ℕ, ◌≡◌, refl, true, Option, none, some, List, arith}
use goi_mon.Model.{
  OrderItemStatus, pending, cooking, ready, served, cancelled, in_status, OrderItem,
}
use goi_mon.Items.{allowed_from, set_row}

-- The statuses that the kitchen still works on.
pub data IsActive : OrderItemStatus → Type 0 where
  waits : IsActive pending
  cooks : IsActive cooking
  stands : IsActive ready

-- The diagram of the kitchen: forward, with steps left out or not, and the undo of a serving.
pub data Move : OrderItemStatus → OrderItemStatus → Type 0 where
  cook : Move pending cooking
  skip : Move pending ready
  plate : Move cooking ready
  serve : {s : OrderItemStatus} → IsActive s → Move s served
  undo : Move served pending

pub ruleset moves = (waits, cooks, stands, cook, skip, plate, serve, undo)

-- The map ALLOWED_FROM and the diagram agree.
pub allowed-Move :
    (s t : OrderItemStatus) {ss : List OrderItemStatus}
    → allowed_from t ≡ some ss
    → in_status ss s ≡ true
    → Move s t
unfolding allowed_from
allowed-Move s t e h = grind (arith, moves)

pub Move-allowed :
    {s t : OrderItemStatus}
    → Move s t
    → (ss : List OrderItemStatus) × (allowed_from t ≡ some ss) × (in_status ss s ≡ true)
unfolding allowed_from
Move-allowed cook = (_, refl, refl)
Move-allowed skip = (_, refl, refl)
Move-allowed plate = (_, refl, refl)
Move-allowed (serve waits) = (_, refl, refl)
Move-allowed (serve cooks) = (_, refl, refl)
Move-allowed (serve stands) = (_, refl, refl)
Move-allowed undo = (_, refl, refl)

-- Who served an item and when, after it has moved on to a status.
abbrev pub stamp : ℕ → OrderItemStatus → Option ℕ → OrderItem → Option ℕ × Option ℕ
stamp now served actor x = (actor, some now)
stamp now pending actor x = (none, none)
stamp now _ actor x = (x.served_by, x.served_at)

-- An item that has moved on to a status, with nothing but its status and its stamp changed.
pub record IsMoved (now : ℕ) (to : OrderItemStatus) (actor : Option ℕ) (x y : OrderItem)
    : Type 0 where
  pub arrived : y.status ≡ to
  pub stamped : (y.served_by, y.served_at) ≡ stamp now to actor x
  pub otherwise_same :
      record y { status = x.status; served_by = x.served_by; served_at = x.served_at } ≡ x

pub set_row-IsMoved :
    (now : ℕ) (to : OrderItemStatus) (actor : Option ℕ) (x : OrderItem)
    → IsMoved now to actor x (set_row now to actor x)
unfolding set_row
set_row-IsMoved now pending actor x = record {
  arrived = refl;
  stamped = refl;
  otherwise_same = refl;
}
set_row-IsMoved now cooking actor x = record {
  arrived = refl;
  stamped = refl;
  otherwise_same = refl;
}
set_row-IsMoved now ready actor x = record { arrived = refl; stamped = refl; otherwise_same = refl }
set_row-IsMoved now served actor x = record {
  arrived = refl;
  stamped = refl;
  otherwise_same = refl;
}
set_row-IsMoved now cancelled actor x = record {
  arrived = refl;
  stamped = refl;
  otherwise_same = refl;
}
