-- ===== src/Reporting.antt =====
-- qorder_api/reporting: the daily revenue and the best-selling dishes of a restaurant, in its Google
-- sheet; and the job of qorder_api/scheduler that syncs them. gspread and the Sheets service are
-- third-party code: `Gspread` says which of their calls fail.
pub mod Queries
pub mod Totals
pub mod Descending
pub mod Rankings
pub mod Sheets
pub mod Runs
use goi_mon.Prelude.{
  ℕ, zero, suc, ◌+◌, String, Bool, true, false, not, ◌&&◌, ◌||◌, Option, none, some, List, [], ◌∷◌,
  map, ◌==◌, leb, ltb, if◌then◌else◌, Exec, Result, ok, err, raise_if, or_raise, modify, pure,
  ◌>>=◌, ◌>>◌,
}
use text.Mathlib.Text.{◌==◌ as str_eq}
use goi_mon.Sql.{select, first}
use goi_mon.Sql.Keyed.{find}
use goi_mon.Model.{
  SessionStatus, opened, closed, abandoned, OrderItemStatus, served, same_status, TableSession,
  Order, OrderItem, RestaurantSettings, Db, order_key, settings_key,
}
use goi_mon.Storage.{lookup_key, erase_key}
use goi_mon.Reporting.Queries.{RevenueRow, TopItem, revenue_data, top_items_data}
use goi_mon.Scheduler.{Lock, try_lock, release_lock}

-- A row of cells.
pub data Row : Type 0 where
  heading : List String → Row
  revenue_row : RevenueRow → Row
  item_row : TopItem → Row

-- The two worksheets, if they exist.
pub record Spreadsheet : Type 0 where
  pub revenue : Option (List Row)
  pub top_items : Option (List Row)

abbrev pub Drive : Type 0
Drive = List (String × Spreadsheet)

pub data Worksheet : Type 0 where
  revenue top_items : Worksheet

-- `authorize` is false without a key file, and where Google refuses; the others say of a spreadsheet
-- and a worksheet whether the call is answered.
pub record Gspread : Type 0 where
  pub authorize : Bool
  pub add_worksheet : String → Worksheet → Bool
  pub clear : String → Worksheet → Bool
  pub update : String → Worksheet → Bool

abbrev pub cells : Worksheet → Spreadsheet → Option (List Row)
cells revenue s = s.revenue
cells top_items s = s.top_items

abbrev pub set_cells : Worksheet → List Row → Spreadsheet → Spreadsheet
set_cells revenue rows s = record s { revenue = some rows }
set_cells top_items rows s = record s { top_items = some rows }

-- An exception of gspread or of the service; `sync` tells none from another.
pub data SyncFault : Type 0 where
  sync_failed : SyncFault

-- `spreadsheet.worksheet(title)`, or `add_worksheet` where there is none.
unfoldable pub get_worksheet :
    Gspread → String → Worksheet → Option (List Row) → Exec Spreadsheet SyncFault (Unit {0})
get_worksheet g id ws (some rows) s = (ok tt, s)
get_worksheet g id ws none s =
    if g.add_worksheet id ws then (ok tt, set_cells ws [] s) else (err sync_failed, s)

-- `_write_revenue_worksheet` and `_write_top_items_worksheet`, which differ in the title and rows.
unfoldable pub write_worksheet :
    Gspread → String → Worksheet → List Row → Exec Spreadsheet SyncFault (Unit {0})
write_worksheet g id ws rows = do
  (λ s. get_worksheet g id ws (cells ws s) s)
  raise_if (not (g.clear id ws)) sync_failed
  modify (set_cells ws [])
  raise_if (not (g.update id ws)) sync_failed
  modify (set_cells ws rows)

abbrev pub revenue_cells : List RevenueRow → List Row
revenue_cells rs = heading ("Ngày" ∷ "Doanh thu" ∷ "Số phiên" ∷ []) ∷ map revenue_row rs

abbrev pub item_cells : List TopItem → List Row
item_cells ts = heading ("Món" ∷ "Số lượng bán" ∷ []) ∷ map item_row ts

-- Both worksheets of an open spreadsheet.
unfoldable pub write_worksheets :
    Gspread → String → List RevenueRow → List TopItem → Exec Spreadsheet SyncFault (Unit {0})
write_worksheets g id rs ts = do
  write_worksheet g id revenue (revenue_cells rs)
  write_worksheet g id top_items (item_cells ts)

abbrev pub put_sheet :
    String → Result SyncFault (Unit {0}) × Spreadsheet → Drive → Result SyncFault (Unit {0}) × Drive
put_sheet id (q, s) drive = (q, (id, s) ∷ erase_key id drive)

-- `_write_to_sheet`: what was written before a failure stays written.
unfoldable pub write_to_sheet :
    Gspread → String → List RevenueRow → List TopItem → Exec Drive SyncFault (Unit {0})
unfolding lookup_key erase_key
write_to_sheet g id rs ts drive =
    if g.authorize
    then elim (lookup_key id drive) [
      | none ↦ (err sync_failed, drive)
      | some s ↦ put_sheet id (write_worksheets g id rs ts s) drive
    ]
    else (err sync_failed, drive)

abbrev pub nonempty_id : Option String → Option String
nonempty_id none = none
nonempty_id (some id) = if str_eq id "" then none else some id

abbrev pub sheet_of : Option RestaurantSettings → Option String
sheet_of none = none
sheet_of (some s) = nonempty_id s.report_sheet_id

-- The sheet of a restaurant, if it has one.
unfoldable pub report_sheet : ℕ → Db → Option String
unfolding find
report_sheet rid db = sheet_of (find settings_key rid db.settings)

abbrev pub has_sheet : RestaurantSettings → Bool
has_sheet s = elim s.report_sheet_id [ none ↦ false | some _ ↦ true ]

module _ (g : Gspread) (date : ℕ → ℕ) (since : ℕ) where
  unfoldable pub do_sync : Db → ℕ → Exec Drive SyncFault (Unit {0})
  do_sync db rid drive = elim (report_sheet rid db) [
    | none ↦ (ok tt, drive)
    | some id ↦
        write_to_sheet g id (revenue_data date since rid db) (top_items_data since rid db) drive
  ]

  -- `ReportSyncService.sync` swallows what `_do_sync` raises.
  unfoldable pub sync : Db → ℕ → Drive → Drive
  sync db rid drive = (do_sync db rid drive).1

  -- One restaurant after the other; `at` is the database that the queries for each find.
  unfoldable pub sync_all : (ℕ → Db) → List ℕ → Drive → Drive
  sync_all at [] drive = drive
  sync_all at (rid ∷ rids) drive = sync_all at rids (sync (at rid) rid drive)

  -- `_run_report_sync`: WHERE report_sheet_id IS NOT NULL
  unfoldable pub run_report_sync : (ℕ → Db) → Db → Drive → Drive
  unfolding select
  run_report_sync at db drive = sync_all at (map settings_key (select has_sheet db.settings)) drive

  -- `sync_reports`, under its own lock, as the sweep under its.
  unfoldable pub sync_reports :
      (Option Lock → Option Lock)
      → (Option Lock → Option Lock)
      → ℕ
      → ℕ
      → ℕ
      → ℕ
      → (ℕ → Db)
      → Db
      → Drive
      → Option Lock
      → Drive × Option Lock
  unfolding try_lock release_lock
  sync_reports meanwhile gap start finish instance_id ttl at db drive lock =
      let (acquired, lock') = try_lock start instance_id ttl lock in
      if acquired
      then (run_report_sync at db drive, release_lock gap finish instance_id (meanwhile lock'))
      else (drive, lock')
