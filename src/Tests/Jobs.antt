-- ===== src/Tests/Jobs.antt =====
-- Calls for staff, locks, and requests while Redis is out of order.
use goi_mon.Prelude.{◌≢◌, ◌<◌, ◌≤◌, ◌++◌, ◌*◌, ◌≡◌, refl, none, some, arith, ok, [], ◌∷◌}
use goi_mon.Sql.{select, first}
use goi_mon.Model.{StaffCall, hour}
use goi_mon.Calls.{create, CallError, get_cooldown, is_recent}
use goi_mon.Calls.Cooldown.{IsSpaced, create-IsSpaced, rings_too, create_overlap}
use goi_mon.Customer.Orders.{OrderLine, create_order}
use goi_mon.Customer.Visits.{cancel_item_customer, call_staff}
use goi_mon.Delivery.{customer_undisturbed}
use goi_mon.Scheduler.{Lock, sweep_abandoned_sessions, run_sweep}
use goi_mon.Scheduler.Locks.{sweep_releases}
use goi_mon.Tests.Data.{keep, noon, lunch, world, silent, request}

create-IsSpaced_example :
    IsSpaced 3
      (get_cooldown 1 lunch)
      (create {E = CallError} keep noon 61 3 30 1 (world lunch)).1.db.calls
create-IsSpaced_example = create-IsSpaced keep noon 61 3 30 1 (world lunch) refl (tt, tt)

create_overlap_example :
    let gap = rings_too noon 62 3 30 1 (world lunch) in
    let (q, w') = create {E = CallError} gap noon 61 3 30 1 (world lunch) in
    (c : StaffCall) × (c' : StaffCall) × (q ≡ ok (some c))
    × (w'.db.calls ≡ lunch.calls ++ c' ∷ c ∷ [])
    × ((c.table_id ≡ 3) × (c'.table_id ≡ 3))
    × ¬ IsSpaced 3 (get_cooldown 1 lunch) (c' ∷ c ∷ [])
unfolding select first is_recent get_cooldown
create_overlap_example =
    create_overlap noon noon 61 62 3 30 30 1 (world lunch) refl refl (omega arith)

abbrev two_bowls : OrderLine
two_bowls = record { menu_item_id = 20; quantity = 2; note = none }

customer_undisturbed_example :
    (((create_order request "qr3" (two_bowls ∷ []) (world lunch)).0
        ≡ (create_order request "qr3" (two_bowls ∷ []) (silent lunch)).0)
      × ((create_order request "qr3" (two_bowls ∷ []) (world lunch)).1.db
          ≡ (create_order request "qr3" (two_bowls ∷ []) (silent lunch)).1.db))
    × (((cancel_item_customer request "qr3" 51 none (world lunch)).0
          ≡ (cancel_item_customer request "qr3" 51 none (silent lunch)).0)
        × ((cancel_item_customer request "qr3" 51 none (world lunch)).1.db
            ≡ (cancel_item_customer request "qr3" 51 none (silent lunch)).1.db))
    × (((call_staff request "qr3" (world lunch)).0 ≡ (call_staff request "qr3" (silent lunch)).0)
        × ((call_staff request "qr3" (world lunch)).1.db
            ≡ (call_staff request "qr3" (silent lunch)).1.db))
customer_undisturbed_example =
    customer_undisturbed request "qr3" (two_bowls ∷ []) 51 none (world lunch) (silent lunch) refl

-- The lease as another client renews it, and the lock of another client.
abbrev renewed : Lock
renewed = record { holder = 1; expires_at = 6 * hour }

abbrev other_lock : Lock
other_lock = record { holder = 2; expires_at = 9 * hour }

sweep_releases_example :
    let after =
      sweep_abandoned_sessions
        (λ l. some renewed)
        (λ l. some other_lock)
        noon
        (5 * hour)
        1
        hour
        noon
        (λ i. noon)
        (world lunch)
        none in
    ((l : Lock) → none ≡ some l → noon < l.expires_at → after ≡ (world lunch, some l))
    × (((l : Lock) → none ≡ some l → l.expires_at ≤ noon)
        → (after.0 ≡ run_sweep noon (λ i. noon) (world lunch))
          × (some renewed ≡ none → after.1 ≡ some other_lock)
          × ((l : Lock)
              → some renewed ≡ some l
              → l.expires_at ≤ 5 * hour
              → after.1 ≡ some other_lock)
          × ((l : Lock) → some renewed ≡ some l → l.holder ≢ 1 → after.1 ≡ some other_lock)
          × ((l : Lock)
              → some renewed ≡ some l
              → l.holder ≡ 1
              → 5 * hour < l.expires_at
              → after.1 ≡ none))
sweep_releases_example =
    sweep_releases (λ l. some renewed) (λ l. some other_lock) noon (5 * hour) 1 hour noon
      (λ i. noon) (world lunch) none
