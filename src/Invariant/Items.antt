-- ===== src/Invariant/Items.antt =====
-- The invariant under the item service and `_abandon_session`.
use goi_mon.Prelude.{ℕ, ◌≡◌, refl, String, Bool, Option, List, Option-cases, inl, inr}
use goi_mon.Sql.{select, first}
use goi_mon.Sql.Keyed.{update-IsKeyed}
use goi_mon.Model.{OrderItemStatus, CancelledBy, OrderItem, Db, item_key}
use goi_mon.Items.{allowed_from, set_status, set_row, cancel_item, cancel_row}
use goi_mon.Items.Swap.{swap, swap_cases, swap-IsKeyed, written}
use goi_mon.Items.Moves.{set_status-swap, set_status-none, test, set_row-id}
use goi_mon.Items.Cancel.{cancellable, cancel_item-swap, cancel_row-id}
use goi_mon.Scheduler.{abandon_db, may_abandon, abandon_row}
use goi_mon.Scheduler.Sweep.{abandon_db_lost, abandon_db_won}
use goi_mon.Invariant.{SessionsValid, IsValid}
use goi_mon.Invariant.Sessions.{touch_order_session-valid, IsHarmless, update-SessionsValid}

swap-IsValid :
    (now i : ℕ) (q : OrderItem → Bool) (f : OrderItem → OrderItem) (db : Db)
    → ((x : OrderItem) → (f x).id ≡ x.id)
    → IsValid db
    → IsValid (swap now i q f db).1
swap-IsValid now i q f db keeps v = record {
  sessions = sessions_lem;
  items = swap-IsKeyed now i q f db v.items keeps;
}
  where
    sessions_lem : SessionsValid (swap now i q f db).1.sessions
    sessions_lem = elim (swap_cases now i q f db v.items) [
      | inl (x, e, h, s) ↦
          rw s (touch_order_session-valid now (f x).order_id (written now i q f db) v.sessions)
      | inr (k, s) ↦ rw s v.sessions
    ]

-- A change of an item's status, successful or not, keeps the invariant of the database.
pub set_status-IsValid :
    (now i : ℕ) (to : OrderItemStatus) (actor : Option ℕ) (r : ℕ) (db : Db)
    → IsValid db
    → IsValid (set_status now i to actor r db).1
set_status-IsValid now i to actor r db v = elim (Option-cases (allowed_from to)) [
  | inl e ↦ rw (set_status-none now i to actor r db e) v
  | inr (ss, e) ↦ rw (set_status-swap now i to actor r ss e db) (
      swap-IsValid now i (test now i to actor r ss) (set_row now to actor) db
        (set_row-id now to actor) v)
]

pub cancel_item-IsValid :
    (now i : ℕ) (who : CancelledBy) (r : ℕ) (allowed : List OrderItemStatus)
    (reason : Option String) (db : Db)
    → IsValid db
    → IsValid (cancel_item now i who r allowed reason db).1
cancel_item-IsValid now i who r allowed reason db v =
    rw (cancel_item-swap now i who r allowed reason db) (
      swap-IsValid now i (cancellable now i who r allowed reason) (cancel_row now who reason) db
        (cancel_row-id now i who r allowed reason) v)

abandon_row-IsHarmless : (now : ℕ) → IsHarmless (abandon_row now)
unfolding abandon_row
abandon_row-IsHarmless now = record {
  same_id = λ s. refl;
  same_table = λ s. refl;
  opens_none = λ s h. cc;
  bills_none = λ s u _. refl;
}

pub abandon_db-IsValid :
    (now sid rid : ℕ) (db : Db) → IsValid db → IsValid (abandon_db now sid rid db).1
abandon_db-IsValid now sid rid db v =
    elim (Option-cases (first (select (may_abandon sid) db.sessions))) [
      | inl e ↦ rw (abandon_db_lost now sid rid db e) v
      | inr (s, e) ↦ rw (abandon_db_won now sid rid db s e) (record {
        sessions =
            update-SessionsValid (may_abandon sid) (abandon_row now) db.sessions
              (abandon_row-IsHarmless now) v.sessions;
        items = update-IsKeyed item_key _ _ db.items (λ x. unfold cancel_row in refl) v.items;
      })
    ]
