-- ===== src/Tests/Reports.antt =====
-- The figures of a day, their sheet, and a printed bill.
use goi_mon.Prelude.{
  ℕ, ◌*◌, ◌≡◌, ◌≤◌, ◌⊎◌, ◌==◌, if◌then◌else◌, sum_of, refl, true, none, some, String, [], ◌∷◌,
  length, All,
}
use Prim.Native.Nat.{◌/◌}
use goi_mon.Sql.{select}
use goi_mon.Model.{Db, closed, hour}
use goi_mon.Storage.{lookup_key}
use goi_mon.Reporting.{Gspread, report_sheet, run_report_sync}
use goi_mon.Reporting.Queries.{revenue_data, top_items_data, is_billed, is_sold, amount}
use goi_mon.Reporting.Totals.{
  IsChronological, revenue_of, sessions_of, revenue_on, billed_on, revenue_data-IsComplete,
}
use goi_mon.Reporting.Descending.{IsDescending}
use goi_mon.Reporting.Rankings.{sold_as, is_listed, top_items_data-IsTop}
use goi_mon.Reporting.Runs.{report_of, run_report_sync-report}
use goi_mon.Printing.{BillData, Printing}
use goi_mon.Printing.Prices.{read_from, format_price, format_price_dong}
use goi_mon.Printing.Thermal.{Escpos}
use goi_mon.Printing.Documents.{Weasy}
use goi_mon.Printing.Bills.{print_bill}
use goi_mon.Printing.Fallback.{IsPrinted, print_bill-IsPrinted}
use goi_mon.Tests.Data.{noon, visit, next_visit, db_with, pho_settings}

abbrev day : ℕ → ℕ
day t = t / (24 * hour)

-- Two visits were paid.
abbrev paid : Db
paid =
    record (db_with (
      record visit { status = closed; closed_at = some noon; total_amount = some 10000 }
      ∷ record next_visit { status = closed; closed_at = some (30 * hour); total_amount = some 700 }
      ∷ [])) { settings = record pho_settings { report_sheet_id = some "sheet" } ∷ [] }

revenue_data-IsComplete_example :
    let rows = revenue_data day 0 1 paid in
    let billed = select (is_billed 0 1) paid.sessions in
    IsChronological rows
    × (sum_of revenue_of rows ≡ sum_of (λ s. amount s.total_amount) billed)
    × (sum_of sessions_of rows ≡ length billed)
    × ((d : ℕ) → sum_of (revenue_on d) rows ≡ sum_of (billed_on day d) billed)
revenue_data-IsComplete_example = revenue_data-IsComplete day 0 1 paid

top_items_data-IsTop_example :
    let rows = top_items_data 0 1 paid in
    let items = select (is_sold 0 1 paid.orders) paid.items in
    (length rows ≤ 50)
    × IsDescending rows
    × All (λ t. t.sold ≡ sum_of (sold_as t.name) items) rows
    × ((name : String)
        → (is_listed name rows ≡ true) ⊎ All (λ t. sum_of (sold_as name) items ≤ t.sold) rows)
top_items_data-IsTop_example = top_items_data-IsTop 0 1 paid

abbrev google : Gspread
google = record {
  authorize = true;
  add_worksheet = λ i w. true;
  clear = λ i w. true;
  update = λ i w. true;
}

run_report_sync-report_example :
    lookup_key "sheet" (
      run_report_sync google day 0
        (λ r. paid)
        paid
        (("sheet", record { revenue = none; top_items = none }) ∷ []))
    ≡ some (report_of google day 0 paid 1)
unfolding select report_sheet lookup_key
run_report_sync-report_example =
    run_report_sync-report google day 0 (λ r. paid) "sheet" paid
      (("sheet", record { revenue = none; top_items = none }) ∷ [])
      (record { revenue = none; top_items = none }) [] [] 1 refl refl refl
      (refl, (λ ws. (refl, refl, refl))) tt

format_price_dong_example : read_from 0 (format_price 12345600 "VND") ≡ 123456
format_price_dong_example = format_price_dong 12345600

-- The printer runs out of paper at the third call.
abbrev printer : Escpos
printer = record {
  installed = true;
  connect_network = λ ip port. none;
  connect_usb = none;
  raises = λ i. if i == 2 then some "no paper" else none;
  repr = λ s. s;
  strftime = λ t. "12:00";
}

abbrev press : Weasy
press = record {
  installed = true;
  mkdir = λ dir. none;
  write_pdf = λ path html. none;
  strftime = λ t. "12:00";
  file_time = λ t. "1200";
}

abbrev counter : Printing
counter = record {
  printer_type = "usb";
  printer_ip = none;
  printer_port = 9100;
  bill_pdf_output_dir = "/tmp";
}

abbrev bill : BillData
bill = record {
  restaurant_name = "Pho";
  table_label = "3";
  items = record { name = "Pho bo"; quantity = 2; unit_price = 5000 } ∷ [];
  total_amount = 10000;
  currency = "VND";
  closed_at = noon;
}

print_bill-IsPrinted_example :
    IsPrinted printer press "/tmp" bill (print_bill printer press counter bill)
print_bill-IsPrinted_example = print_bill-IsPrinted printer press counter bill
