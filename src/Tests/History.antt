-- ===== src/Tests/History.antt =====
-- A visit that was paid, and what comes after it.
use goi_mon.Prelude.{refl, none, some, [], ◌∷◌, arith}
use goi_mon.Sql.{select}
use goi_mon.Sql.Keyed.{find}
use goi_mon.Model.{Db, TableSession, closed, pending}
use goi_mon.Sessions.Checkout.{checkout}
use goi_mon.Sessions.Restore.{restore}
use goi_mon.Items.{set_status}
use goi_mon.Scheduler.{abandon_db}
use goi_mon.Invariant.{IsValid}
use goi_mon.Invariant.Runs.{
  alone, next, done, checks_out, restores, sets, sweeps, administers, Run-IsValid,
}
use goi_mon.Invariant.Runs.Closed.{IsClosed}
use goi_mon.Invariant.Runs.Final.{Run-IsClosed}
use goi_mon.Admin.Requests.{patch_item, handle}
use goi_mon.Tests.Desk.{cfg, outside, owner, hide, shelf}
use goi_mon.Tests.Data.{noon, visit, lunch, lunch-IsValid, db_with, eaten_ne_awaited}

-- The sweep comes after the checkout, and then the owner hides a dish.
abbrev after_checkout : Db
after_checkout = (abandon_db noon 30 1 (checkout noon 30 1 lunch).1).1

abbrev edited : Db
edited =
    (handle cfg outside owner (patch_item 9 20 hide)
      (record { db = after_checkout; bucket = shelf })).1.db

Run-IsValid_example : IsValid edited
Run-IsValid_example =
    Run-IsValid
      (next (checks_out noon 30 1) (
        next (sweeps noon 30 1) (
          next
            (administers cfg outside owner (patch_item 9 20 hide)
              (record { db = after_checkout; bucket = shelf }))
            done)))
      lunch-IsValid

abbrev paid_visit : TableSession
paid_visit = record visit { status = closed; closed_at = some noon; total_amount = some 10000 }

abbrev paid_lunch : Db
paid_lunch = db_with (paid_visit ∷ [])

paid_lunch-IsValid : IsValid paid_lunch
unfolding select
paid_lunch-IsValid = record {
  sessions = record {
    keyed = (tt, tt);
    one_open = λ t. ground arith;
    unbilled = ((λ ne. absurd (ne refl)), tt);
  };
  items = ((eaten_ne_awaited, tt), (tt, tt));
}

paid_lunch-IsClosed : IsClosed 30 (some 10000) (some noon) paid_lunch
unfolding find
paid_lunch-IsClosed = record {
  session = paid_visit;
  found = refl;
  shut = refl;
  total_kept = refl;
  time_kept = refl;
}

-- A dish is set back, and somebody tries to restore the visit and to check it out again.
abbrev later_on : Db
later_on =
    (checkout noon 30 1
      (restore alone noon noon 30 1 (set_status noon 50 pending none 1 paid_lunch).1).1).1

Run-IsClosed_example : IsClosed 30 (some 10000) (some noon) later_on
Run-IsClosed_example =
    Run-IsClosed 30 (some 10000) (some noon)
      (next (sets noon 50 pending none 1)
        (next (restores noon noon 30 1) (next (checks_out noon 30 1) done)))
      paid_lunch-IsValid paid_lunch-IsClosed
