-- ===== src/Printing/Documents.antt =====
-- qorder_api/printing/pdf_printer.py: a bill as a PDF. WeasyPrint and the file system are third-party code:
-- `Weasy` says what they answer.
use goi_mon.Prelude.{
  ℕ, ◌*◌, String, Bool, false, Option, none, some, List, [], ◌∷◌, ◌==◌, if◌then◌else◌, ◌<>◌,
}
use Prim.Native.Char.{Char, code}
use Prim.Native.String as Text
use text.Mathlib.Text.{◌==◌ as str_eq}
use goi_mon.Printing.{BillItem, BillData, pdf, BillResult, failure}
use goi_mon.Printing.Prices.{show, format_price}

unfoldable pub item_row : String → BillItem → String
item_row currency x =
    "<tr><td class=\"item-name\">"
    <> (x.name
        <> ("</td>"
            <> ("<td>"
                <> (show x.quantity
                    <> (" x "
                        <> (format_price x.unit_price currency
                            <> ("</td>"
                                <> ("<td class=\"right\">"
                                    <> (format_price (x.unit_price * x.quantity) currency
                                        <> "</td></tr>\n")))))))))

unfoldable pub items_rows : String → List BillItem → String
unfolding item_row
items_rows currency [] = ""
items_rows currency (x ∷ xs) = item_row currency x <> items_rows currency xs

-- The template up to the name of the restaurant.
unfoldable pub template_head : String
template_head =
    ("<!DOCTYPE html>\n"
      <> ("<html lang=\"vi\">\n"
          <> ("<head>\n"
              <> ("<meta charset=\"utf-8\">\n"
                  <> ("<style>\n"
                      <> ("  body { font-family: 'Arial', sans-serif; width: 72mm; margin: 0 auto"
                          <> ("; padding: 8px; font-size: 12px; }\n"
                              <> ("  .center { text-align: center; }\n"
                                  <> ("  .right { text-align: right; }\n"
                                      <> ("  h1 { font-size: 16px; margin: 4px 0; }\n"
                                          <> ("  .table-label { font-size: 14px; margin-bottom: 8px; }\n"
                                              <> ("  hr { border: none; border-top: 1px dashed #000; margin: 6px 0; }\n"
                                                  <> ("  table { width: 100%; border-collapse: collapse; }\n"
                                                      <> ("  table td { padding: 2px 0; vertical-align: top; }\n"
                                                          <> ("  .item-name { font-weight: bold; }\n"
                                                            <> ("  .total { font-size: 14px; font-weight: bold; }\n"
                                                            <> ("  .timestamp { margin-top: 8px; font-size: 11px; color: #555; }\n"
                                                            <> ("</style>\n"
                                                            <> ("</head>\n"
                                                            <> ("<body>\n"
                                                            <> ("  <div class=\"center\">\n"
                                                            <> "    <h1>")))))))))))))))))))))

-- `_render_html`: nothing that is put into the template is escaped.
unfoldable pub render_html : (ℕ → String) → BillData → String
unfolding items_rows template_head
render_html strftime bill =
    template_head
    <> (bill.restaurant_name
        <> ("</h1>\n    <div class=\"table-label\">Bàn: "
            <> (bill.table_label
                <> ("</div>\n  </div>\n  <hr>\n  <table>\n    "
                    <> (items_rows bill.currency bill.items
                        <> ("\n  </table>\n  <hr>\n  <div class=\"right total\">TỔNG: "
                            <> (format_price bill.total_amount bill.currency
                                <> ("</div>\n  <div class=\"center timestamp\">"
                                    <> (strftime bill.closed_at
                                        <> "</div>\n</body>\n</html>\n")))))))))

-- `mkdir` and `write_pdf` give the message of the exception, if they raise one.
pub record Weasy : Type 0 where
  pub installed : Bool
  pub mkdir : String → Option String
  pub write_pdf : String → String → Option String
  pub strftime : ℕ → String
  pub file_time : ℕ → String

abbrev pub is_space : Char → Bool
is_space c = code c == b' '

-- label.replace(" ", "_")
unfoldable pub safe_label : String → String
safe_label Text.[] = Text.[]
safe_label (Text.◌∷◌ c s) =
    let rest = safe_label s in if is_space c then Text.◌∷◌ "_" rest else Text.◌∷◌ c rest

-- Whether a text ends in a slash.
unfoldable pub ends_in_slash : String → Bool
ends_in_slash Text.[] = false
ends_in_slash (Text.◌∷◌ c Text.[]) = code c == b'/'
ends_in_slash (Text.◌∷◌ c (Text.◌∷◌ d s)) = ends_in_slash (Text.◌∷◌ d s)

-- os.path.join(dir, name) for a name that is not absolute
unfoldable pub join_path : String → String → String
unfolding ends_in_slash
join_path dir name =
    if str_eq dir "" then name else if ends_in_slash dir then dir <> name else dir <> ("/" <> name)

unfoldable pub pdf_path_of : Weasy → String → BillData → String
unfolding safe_label join_path
pdf_path_of w dir bill =
    join_path dir
      ("bill_" <> (safe_label bill.table_label <> ("_" <> (w.file_time bill.closed_at <> ".pdf"))))

abbrev pub pdf_result : String → Option String → BillResult
pdf_result path none = record { method = pdf; pdf_path = some path; error = none }
pdf_result path (some e) = failure ("PDF generation error: " <> e)

unfoldable pub print_pdf : Weasy → String → BillData → BillResult
unfolding pdf_path_of render_html
print_pdf w dir bill =
    if w.installed
    then elim (w.mkdir dir) [
      | some e ↦ failure ("PDF generation error: " <> e)
      | none ↦
          let path = pdf_path_of w dir bill in
          pdf_result path (w.write_pdf path (render_html w.strftime bill))
    ]
    else failure "weasyprint is not installed. Install with: pip install 'qorder-api[printing]'"
