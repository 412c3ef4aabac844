-- ===== src/Printing/Bills.antt =====
-- `PrintingService.print_bill` of qorder_api/printing/__init__.py: the thermal printer, or else a PDF.
use goi_mon.Prelude.{String, Bool, true, false, Option, none, some, List, if◌then◌else◌, ◌<>◌}
use goi_mon.Printing.{BillData, Method, thermal, pdf, BillResult, failure, Printing}
use goi_mon.Printing.Thermal.{Escpos, Command, print_thermal}
use goi_mon.Printing.Documents.{Weasy, print_pdf}

-- f"{error}" of an optional text
abbrev pub shown : Option String → String
shown none = "None"
shown (some e) = e

abbrev pub both_failed : BillResult → BillResult → BillResult
both_failed t p = failure ("Thermal: " <> (shown t.error <> ("; PDF: " <> shown p.error)))

abbrev pub is_thermal : Method → Bool
is_thermal thermal = true
is_thermal _ = false

abbrev pub is_pdf : Method → Bool
is_pdf pdf = true
is_pdf _ = false

-- The result, and what came out of the printer.
unfoldable pub print_bill : Escpos → Weasy → Printing → BillData → BillResult × List Command
unfolding print_thermal print_pdf
print_bill p w cfg bill =
    let (t, paper) = print_thermal p cfg bill in
    if is_thermal t.method
    then (t, paper)
    else (let d = print_pdf w cfg.bill_pdf_output_dir bill in
        if is_pdf d.method then (d, paper) else (both_failed t d, paper))
