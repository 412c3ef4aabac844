-- ===== src/Tests/Visits.antt =====
-- Visits: opening, checking out, restoring, abandoning.
use goi_mon.Prelude.{◌≡◌, refl, none, some, arith, ok, inl, inr}
use goi_mon.Sql.Keyed.{find}
use goi_mon.Model.{Db, abandoned, find_session, hour}
use goi_mon.Sessions.{CheckoutResult}
use goi_mon.Sessions.Closing.{IsSettled}
use goi_mon.Sessions.Checkout.{checkout}
use goi_mon.Sessions.Checkout.Bills.{checkout-IsSettled}
use goi_mon.Scheduler.{run_sweep}
use goi_mon.Scheduler.Sweep.{run_sweep_abandons, run_sweep_spares}
use goi_mon.Scheduler.Races.{checkout-checkout}
use goi_mon.Tests.Data.{noon, visit, lunch, lunch-IsValid, taken, world, pho_settings}

checkout-IsSettled_example :
    (r : CheckoutResult) × ((checkout noon 30 1 lunch).0 ≡ ok (some r))
    × IsSettled 30 1 lunch (checkout noon 30 1 lunch).1 r
unfolding find
checkout-IsSettled_example =
    checkout-IsSettled noon 30 1 lunch lunch-IsValid.sessions.keyed visit refl refl refl

checkout-checkout_example :
    checkout noon 30 1 (checkout noon 30 1 lunch).1 ≡ (ok none, (checkout noon 30 1 lunch).1)
unfolding find
checkout-checkout_example =
    checkout-checkout noon noon 30 1 1 lunch lunch-IsValid visit refl refl refl

-- Other guests sit down between the two statements.
abbrev sits_down : Db → Db
sits_down db = taken

run_sweep_abandons_example :
    find_session 30 (run_sweep noon (λ i. noon) (world lunch)).db
    ≡ some (record visit { status = abandoned; abandoned_at = some noon; total_amount = none })
unfolding find
run_sweep_abandons_example =
    run_sweep_abandons noon (λ i. noon) (world lunch) 30 visit lunch-IsValid.sessions.keyed refl
      pho_settings refl refl (omega arith)

run_sweep_spares_example :
    find_session 30 (run_sweep hour (λ i. hour) (world lunch)).db ≡ some visit
unfolding find
run_sweep_spares_example =
    run_sweep_spares hour (λ i. hour) (world lunch) 30 visit lunch-IsValid.sessions.keyed refl
      (inr (inl (pho_settings, refl, omega arith)))
