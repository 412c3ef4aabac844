-- ===== src/Items/Moves.antt =====
-- What `set_status` does, on every branch, against the state diagram of an order item.
use goi_mon.Prelude.{
  ℕ, ◌+◌, ◌≤◌, ◌≡◌, ◌≢◌, refl, ◌∙◌, ap, Bool, true, ◌&&◌, Option, none, some, List, arith, ◌==◌, ok,
  err, Option-cases, inl, inr, ==_refl, ◌⊎◌,
}
use goi_mon.Sql.Keyed.{IsKeyed}
use goi_mon.Model.{OrderItemStatus, pending, in_status, OrderItem, Db, find_item, item_key}
use goi_mon.Items.{
  ItemError, invalid_transition, conflict, allowed_from, undo_window, within_undo, undo_guard,
  set_row, set_status,
}
use goi_mon.Items.Swap.{swap_cases, find-swap_hit, swap_ne, swap_hit, swap}
use goi_mon.Items.Diagram.{Move, allowed-Move, Move-allowed, IsMoved, set_row-IsMoved}

-- An item was served no longer than the undo window ago.
abbrev pub ServedRecently : ℕ → OrderItem → Type 0
ServedRecently now x = (t : ℕ) × (x.served_at ≡ some t) × (now ≤ t + undo_window)

-- A request that the rules allow: own tenant, an edge of the diagram, an undo in time.
pub record IsPermitted (now r : ℕ) (to : OrderItemStatus) (x : OrderItem) : Type 0 where
  pub tenant : x.restaurant_id ≡ r
  pub edge : Move x.status to
  pub in_time : to ≡ pending → ServedRecently now x

-- The undo guard of the query, and its reading.
guard_of_recent :
    (now : ℕ) (to : OrderItemStatus) (x : OrderItem)
    → (to ≡ pending → ServedRecently now x)
    → undo_guard now to x ≡ true
unfolding undo_guard within_undo
guard_of_recent now pending x h = let (t, e, le) = h refl in rw e (ground arith)
guard_of_recent now _ x h = refl

recent_of_guard :
    (now : ℕ) (to : OrderItemStatus) (x : OrderItem)
    → undo_guard now to x ≡ true
    → to ≡ pending
    → ServedRecently now x
unfolding undo_guard within_undo
recent_of_guard now pending x g e = elim (Option-cases x.served_at) [
  | inl never ↦ cc
  | inr (t, s) ↦ (t, s, ground arith)
]
recent_of_guard now _ x g e = cc

pub set_row-id :
    (now : ℕ) (to : OrderItemStatus) (actor : Option ℕ) (x : OrderItem)
    → (set_row now to actor x).id ≡ x.id
unfolding set_row
set_row-id now pending actor x = refl
set_row-id now _ actor x = refl

module _ (now i : ℕ) (to : OrderItemStatus) (actor : Option ℕ) (r : ℕ) where
  -- The tests of the query after `id = :item_id`.
  abbrev pub test : List OrderItemStatus → OrderItem → Bool
  test ss x = x.restaurant_id == r && (in_status ss x.status && undo_guard now to x)

  pub test_of_permitted :
      (ss : List OrderItemStatus) (x : OrderItem)
      → IsPermitted now r to x
      → in_status ss x.status ≡ true
      → test ss x ≡ true
  test_of_permitted ss x p h = rw (h, guard_of_recent now to x p.in_time, p.tenant, ==_refl r)

  test-IsPermitted :
      (ss : List OrderItemStatus) (x : OrderItem)
      → allowed_from to ≡ some ss
      → test ss x ≡ true
      → IsPermitted now r to x
  test-IsPermitted ss x e h = record {
    tenant = ground arith;
    edge = allowed-Move x.status to e (ground arith);
    in_time = recent_of_guard now to x (ground arith);
  }

  module _ (ss : List OrderItemStatus) (e : allowed_from to ≡ some ss) (db : Db) where
    pub set_status-swap :
        set_status now i to actor r db ≡ swap now i (test ss) (set_row now to actor) db
    unfolding set_status
    set_status-swap = rw e

  pub set_status-none :
      (db : Db)
      → allowed_from to ≡ none
      → set_status now i to actor r db ≡ (err invalid_transition, db)
  unfolding set_status
  set_status-none db e = rw e

  module _ (db : Db) (keyed : IsKeyed item_key db.items) where
    -- On a database with unique item ids, `set_status` on an item of the given restaurant, for a
    -- target that the state diagram allows from the item's status and, for an undo, within 120
    -- seconds of the serving, succeeds: the item is stored and returned with the new status,
    -- stamped with the actor and the time when it is served, with no stamp after an undo, and
    -- otherwise as it was; no other item changes.
    pub set_status_permitted :
        (x : OrderItem)
        → find_item i db ≡ some x
        → IsPermitted now r to x
        → (y : OrderItem) × IsMoved now to actor x y
          × ((set_status now i to actor r db).0 ≡ ok y)
          × (find_item i (set_status now i to actor r db).1 ≡ some y)
          × ((j : ℕ) → j ≢ i → find_item j (set_status now i to actor r db).1 ≡ find_item j db)
    set_status_permitted x f p =
        let (ss, e, h) = Move-allowed p.edge in
        rw (set_status-swap ss e db) (
          set_row now to actor x,
          set_row-IsMoved now to actor x,
          ap (λ t. t.0)
              (swap_hit now i (test ss) (set_row now to actor) db keyed x f
                (test_of_permitted ss x p h)),
          find-swap_hit now i (test ss) (set_row now to actor) db keyed (set_row-id now to actor) x
              f (test_of_permitted ss x p h),
          swap_ne now i (test ss) (set_row now to actor) db keyed (set_row-id now to actor),
        )

    -- The row that the UPDATE hands back, or the error.
    set_status_outcome :
        ((x : OrderItem) × (find_item i db ≡ some x)
          × IsPermitted now r to x
          × ((set_status now i to actor r db).0 ≡ ok (set_row now to actor x)))
        ⊎ ((e : ItemError) × (set_status now i to actor r db ≡ (err e, db)))
    set_status_outcome = elim (Option-cases (allowed_from to)) [
      | inl e ↦ inr (invalid_transition, set_status-none db e)
      | inr (ss, e) ↦ elim (swap_cases now i (test ss) (set_row now to actor) db keyed) [
        | inl (x, f, h, s) ↦
            inl (x, f, test-IsPermitted ss x e h, ap (λ t. t.0) (set_status-swap ss e db ∙ s))
        | inr (k, s) ↦ inr (conflict, set_status-swap ss e db ∙ s)
      ]
    ]

    -- On a database with unique item ids, every call of `set_status` does one of two things.
    -- Either the item is of the given restaurant, its status has an edge of the state diagram to
    -- the target, and an undo is within its window: then the item is stored and returned with the
    -- new status, with the stamps of a serving or of an undo and otherwise as it was, and no
    -- other item changes. Or the call raises and leaves the whole database as it was.
    pub set_status_cases :
        ((x : OrderItem) × (y : OrderItem) × (find_item i db ≡ some x)
          × IsPermitted now r to x
          × IsMoved now to actor x y
          × ((set_status now i to actor r db).0 ≡ ok y)
          × (find_item i (set_status now i to actor r db).1 ≡ some y)
          × ((j : ℕ) → j ≢ i → find_item j (set_status now i to actor r db).1 ≡ find_item j db))
        ⊎ ((e : ItemError) × (set_status now i to actor r db ≡ (err e, db)))
    set_status_cases = elim set_status_outcome [
      | inl (x, f, p, s) ↦
          let (y, moved, answer, stored, others) = set_status_permitted x f p in
          inl (x, y, f, p, moved, answer, stored, others)
      | inr refused ↦ inr refused
    ]

    pub set_status_ok :
        (y : OrderItem)
        → (set_status now i to actor r db).0 ≡ ok y
        → (x : OrderItem) × (find_item i db ≡ some x)
          × IsPermitted now r to x
          × (y ≡ set_row now to actor x)
    set_status_ok y h = elim set_status_outcome [
      | inl (x, f, p, s) ↦ (x, f, p, cc)
      | inr (e, s) ↦ absurd (cc (ap (λ t. t.0) s))
    ]

    pub set_status_refused :
        (e : ItemError)
        → (set_status now i to actor r db).0 ≡ err e
        → (set_status now i to actor r db).1 ≡ db
    set_status_refused e h = elim set_status_outcome [
      | inl (x, f, p, s) ↦ absurd (cc)
      | inr (e', s) ↦ ap (λ t. t.1) s
    ]
