-- ===== src/Printing/Thermal.antt =====
-- qorder_api/printing/escpos_printer.py: a bill on the thermal printer. python-escpos is third-party code:
-- `Escpos` says what it answers.
use goi_mon.Prelude.{
  ℕ, ◌+◌, ◌*◌, String, Bool, true, false, Option, none, some, List, [], ◌∷◌, ◌++◌, if◌then◌else◌,
  ◌<>◌,
}
use text.Mathlib.Text.{◌==◌ as str_eq}
use goi_mon.Printing.{BillItem, BillData, thermal, BillResult, failure, Printing}
use goi_mon.Printing.Prices.{show, format_price}

pub data Align : Type 0 where
  center left right : Align

-- The calls of the printer: `set_style` has the alignment, `bold`, and the double size where it is given.
pub data Command : Type 0 where
  set_style : Align → Bool → Option Bool → Command
  write_text : String → Command
  cut : Command

-- "-" * 32 + "\n"
abbrev separator : Command
separator = write_text "--------------------------------\n"

unfoldable pub item_lines : String → List BillItem → List Command
item_lines currency [] = []
item_lines currency (x ∷ xs) =
    write_text (x.name <> "\n")
    ∷ write_text (
        "  "
        <> (show x.quantity
            <> (" x "
                <> (format_price x.unit_price currency
                    <> (" = " <> (format_price (x.unit_price * x.quantity) currency <> "\n"))))))
    ∷ item_lines currency xs

-- What is sent for a bill; `strftime` prints the time of closing.
unfoldable pub receipt : (ℕ → String) → BillData → List Command
unfolding item_lines
receipt strftime bill =
    set_style center true (some true)
    ∷ write_text (bill.restaurant_name <> "\n")
    ∷ set_style center false (some false)
    ∷ write_text ("Ban: " <> (bill.table_label <> "\n"))
    ∷ separator
    ∷ set_style left false none
    ∷ (item_lines bill.currency bill.items
        ++ separator
          ∷ set_style right true none
          ∷ write_text ("TONG: " <> (format_price bill.total_amount bill.currency <> "\n"))
          ∷ set_style center false none
          ∷ write_text (strftime bill.closed_at <> "\n")
          ∷ write_text "\n"
          ∷ cut
          ∷ [])

-- `connect_network` and `connect_usb` give the message of the exception, if they raise one; `raises i`
-- is that of the `i`-th call of the printer.
pub record Escpos : Type 0 where
  pub installed : Bool
  pub connect_network : String → ℕ → Option String
  pub connect_usb : Option String
  pub raises : ℕ → Option String
  pub repr : String → String
  pub strftime : ℕ → String

abbrev pub carried_out :
    Option String → Command → Option String × List Command → Option String × List Command
carried_out (some e) c rest = (some e, [])
carried_out none c (r, done) = (r, c ∷ done)

-- The calls one after the other, up to the first that raises: its message, and what was carried out.
unfoldable pub carry_out : (ℕ → Option String) → ℕ → List Command → Option String × List Command
carry_out raises i [] = (none, [])
carry_out raises i (c ∷ cs) = carried_out (raises i) c (carry_out raises (i + 1) cs)

abbrev pub thermal_result : Option String → BillResult
thermal_result none = record { method = thermal; pdf_path = none; error = none }
thermal_result (some e) = failure ("Thermal printing error: " <> e)

-- The printer once it is connected, or the message of the exception that it raised.
unfoldable pub print_connected : Escpos → BillData → Option String → BillResult × List Command
unfolding carry_out receipt
print_connected p bill none =
    let (r, done) = carry_out p.raises 0 (receipt p.strftime bill) in (thermal_result r, done)
print_connected p bill (some e) = (thermal_result (some e), [])

unfoldable pub print_network : Escpos → BillData → ℕ → Option String → BillResult × List Command
unfolding print_connected
print_network p bill port none = (failure "printer_ip is required for network printer", [])
print_network p bill port (some ip) =
    if str_eq ip ""
    then (failure "printer_ip is required for network printer", [])
    else print_connected p bill (p.connect_network ip port)

unfoldable pub print_thermal : Escpos → Printing → BillData → BillResult × List Command
unfolding print_network print_connected
print_thermal p cfg bill =
    if str_eq cfg.printer_type "none"
    then (failure "No thermal printer configured (printer_type='none')", [])
    else if p.installed
    then (if str_eq cfg.printer_type "network"
        then print_network p bill cfg.printer_port cfg.printer_ip
        else if str_eq cfg.printer_type "usb"
        then print_connected p bill p.connect_usb
        else (failure ("Unknown printer_type: " <> p.repr cfg.printer_type), []))
    else (
      failure "python-escpos is not installed. Install with: pip install 'qorder-api[printing]'",
      [],
    )
