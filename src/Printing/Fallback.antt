-- ===== src/Printing/Fallback.antt =====
-- What becomes of a bill: `print_bill` of qorder_api/printing/__init__.py with both printers.
use goi_mon.Prelude.{
  ℕ, String, Bool, true, false, Option, none, some, List, [], ◌∷◌, ◌++◌, ◌≡◌, refl, ap, ◌+◌,
  if◌then◌else◌, ◌<>◌,
}
use text.Mathlib.Text.{◌==◌ as str_eq}
use goi_mon.Printing.{BillData, BillResult, failure, Printing}
use goi_mon.Printing.Thermal.{
  Escpos, Command, carried_out, carry_out, receipt, thermal_result, print_connected, print_network,
  print_thermal,
}
use goi_mon.Printing.Documents.{Weasy, pdf_path_of, render_html, pdf_result, print_pdf}
use goi_mon.Printing.Bills.{print_bill, both_failed, is_thermal, is_pdf}

data IsCarriedOut (cs : List Command) : Option String × List Command → Type 0 where
  all : IsCarriedOut cs (none, cs)
  up_to :
      (e : String) (done rest : List Command) → done ++ rest ≡ cs → IsCarriedOut cs (some e, done)

carried_out-IsCarriedOut :
    (c : Command) (cs : List Command) (e : Option String) (r : Option String × List Command)
    → IsCarriedOut cs r
    → IsCarriedOut (c ∷ cs) (carried_out e c r)
carried_out-IsCarriedOut c cs (some e) r h = up_to e [] (c ∷ cs) refl
carried_out-IsCarriedOut c cs none _ all = all
carried_out-IsCarriedOut c cs none _ (up_to e done rest h) =
    up_to e (c ∷ done) rest (ap (λ xs. c ∷ xs) h)

carry_out-IsCarriedOut :
    (raises : ℕ → Option String) (i : ℕ) (cs : List Command)
    → IsCarriedOut cs (carry_out raises i cs)
unfolding carry_out
carry_out-IsCarriedOut raises i [] = all
carry_out-IsCarriedOut raises i (c ∷ cs) =
    carried_out-IsCarriedOut c cs (raises i) (carry_out raises (i + 1) cs)
      (carry_out-IsCarriedOut raises (i + 1) cs)

data IsOnPaper (cs : List Command) : BillResult × List Command → Type 0 where
  whole : IsOnPaper cs (thermal_result none, cs)
  partly :
      (e : String) (done rest : List Command) → done ++ rest ≡ cs → IsOnPaper cs (failure e, done)

unprinted : (cs : List Command) (e : String) → IsOnPaper cs (failure e, [])
unprinted cs e = partly e [] cs refl

thermal_result-IsOnPaper :
    (cs : List Command) (r : Option String × List Command)
    → IsCarriedOut cs r
    → IsOnPaper cs (thermal_result (r.0), r.1)
thermal_result-IsOnPaper cs _ all = whole
thermal_result-IsOnPaper cs _ (up_to e done rest h) =
    partly ("Thermal printing error: " <> e) done rest h

print_connected-IsOnPaper :
    (p : Escpos) (bill : BillData) (connected : Option String)
    → IsOnPaper (receipt p.strftime bill) (print_connected p bill connected)
unfolding print_connected
print_connected-IsOnPaper p bill none =
    let cs = receipt p.strftime bill in
    thermal_result-IsOnPaper cs (carry_out p.raises 0 cs) (carry_out-IsCarriedOut p.raises 0 cs)
print_connected-IsOnPaper p bill (some e) =
    unprinted (receipt p.strftime bill) ("Thermal printing error: " <> e)

-- Whichever way a test goes.
if-IsOnPaper :
    (cs : List Command) (b : Bool) (x y : BillResult × List Command)
    → IsOnPaper cs x
    → IsOnPaper cs y
    → IsOnPaper cs (if b then x else y)
if-IsOnPaper cs true x y h k = h
if-IsOnPaper cs false x y h k = k

print_network-IsOnPaper :
    (p : Escpos) (bill : BillData) (port : ℕ) (ip : Option String)
    → IsOnPaper (receipt p.strftime bill) (print_network p bill port ip)
unfolding print_network
print_network-IsOnPaper p bill port none =
    unprinted (receipt p.strftime bill) "printer_ip is required for network printer"
print_network-IsOnPaper p bill port (some ip) =
    if-IsOnPaper (receipt p.strftime bill) (str_eq ip "") _ _
      (unprinted (receipt p.strftime bill) _)
      (print_connected-IsOnPaper p bill (p.connect_network ip port))

print_thermal-IsOnPaper :
    (p : Escpos) (cfg : Printing) (bill : BillData)
    → IsOnPaper (receipt p.strftime bill) (print_thermal p cfg bill)
unfolding print_thermal
print_thermal-IsOnPaper p cfg bill =
    let cs = receipt p.strftime bill in
    if-IsOnPaper cs (str_eq cfg.printer_type "none") _ _ (unprinted cs _) (
      if-IsOnPaper cs p.installed _ _
        (if-IsOnPaper cs (str_eq cfg.printer_type "network") _ _
          (print_network-IsOnPaper p bill cfg.printer_port cfg.printer_ip)
          (if-IsOnPaper cs (str_eq cfg.printer_type "usb") _ _
            (print_connected-IsOnPaper p bill p.connect_usb) (unprinted cs _)))
        (unprinted cs _))

-- The results of the PDF printer.
data IsFiled (w : Weasy) (dir : String) (bill : BillData) : BillResult → Type 0 where
  filed :
      w.installed ≡ true
      → w.mkdir dir ≡ none
      → w.write_pdf (pdf_path_of w dir bill) (render_html w.strftime bill) ≡ none
      → IsFiled w dir bill (pdf_result (pdf_path_of w dir bill) none)
  unfiled : (e : String) → IsFiled w dir bill (failure e)

print_pdf-IsFiled :
    (w : Weasy) (dir : String) (bill : BillData) → IsFiled w dir bill (print_pdf w dir bill)
unfolding print_pdf
print_pdf-IsFiled w dir bill = go w.installed refl
  where
    written :
        (made : w.mkdir dir ≡ none) (here : w.installed ≡ true) (r : Option String)
        → w.write_pdf (pdf_path_of w dir bill) (render_html w.strftime bill) ≡ r
        → IsFiled w dir bill (pdf_result (pdf_path_of w dir bill) r)
    written made here none h = filed here made h
    written made here (some e) h = unfiled ("PDF generation error: " <> e)

    made :
        w.installed ≡ true
        → (m : Option String) → w.mkdir dir ≡ m
        → IsFiled w dir bill (elim m [
          | some e ↦ failure ("PDF generation error: " <> e)
          | none ↦
              pdf_result
                (pdf_path_of w dir bill)
                (w.write_pdf (pdf_path_of w dir bill) (render_html w.strftime bill))
        ])
    made here none h =
        written h here (w.write_pdf (pdf_path_of w dir bill) (render_html w.strftime bill)) refl
    made here (some e) h = unfiled ("PDF generation error: " <> e)

    go :
        (b : Bool)
        → w.installed ≡ b
        → IsFiled w dir bill (
            if b
            then elim (w.mkdir dir) [
              | some e ↦ failure ("PDF generation error: " <> e)
              | none ↦
                  pdf_result
                    (pdf_path_of w dir bill)
                    (w.write_pdf (pdf_path_of w dir bill) (render_html w.strftime bill))
            ]
            else failure
                "weasyprint is not installed. Install with: pip install 'qorder-api[printing]'")
    go true h = made h (w.mkdir dir) refl
    go false h = unfiled _

-- What becomes of a bill, and what comes out of the thermal printer meanwhile.
pub data IsPrinted (p : Escpos) (w : Weasy) (dir : String) (bill : BillData)
    : BillResult × List Command → Type 0 where
  printed : IsPrinted p w dir bill (thermal_result none, receipt p.strftime bill)
  saved :
      (done rest : List Command)
      → done ++ rest ≡ receipt p.strftime bill
      → w.installed ≡ true
      → w.mkdir dir ≡ none
      → w.write_pdf (pdf_path_of w dir bill) (render_html w.strftime bill) ≡ none
      → IsPrinted p w dir bill (pdf_result (pdf_path_of w dir bill) none, done)
  neither :
      (e e₁ : String) (done rest : List Command)
      → done ++ rest ≡ receipt p.strftime bill
      → IsPrinted p w dir bill (failure ("Thermal: " <> (e <> ("; PDF: " <> e₁))), done)

fallen_back :
    (p : Escpos) (w : Weasy) (dir : String) (bill : BillData) (t : BillResult × List Command)
    (d : BillResult)
    → IsOnPaper (receipt p.strftime bill) t
    → IsFiled w dir bill d
    → IsPrinted p w dir bill (
        if is_thermal (t.0).method
        then t
        else if is_pdf d.method
        then (d, t.1)
        else (both_failed (t.0) d, t.1))
fallen_back p w dir bill _ d whole k = printed
fallen_back p w dir bill _ _ (partly e done rest h) (filed here made wrote) =
    saved done rest h here made wrote
fallen_back p w dir bill _ _ (partly e done rest h) (unfiled e₁) = neither e e₁ done rest h

-- The printing of a bill ends in one of three ways. Either the whole receipt came out of the
-- thermal printer and the method is `thermal`; or a part of the receipt from its start came out,
-- possibly nothing or all, the PDF was written to its path and the method is `pdf`; or such a
-- part came out and the method is `failed`, with one message made of two errors.
pub print_bill-IsPrinted :
    (p : Escpos) (w : Weasy) (cfg : Printing) (bill : BillData)
    → IsPrinted p w cfg.bill_pdf_output_dir bill (print_bill p w cfg bill)
unfolding print_bill
print_bill-IsPrinted p w cfg bill =
    fallen_back p w cfg.bill_pdf_output_dir bill (print_thermal p cfg bill)
      (print_pdf w cfg.bill_pdf_output_dir bill) (print_thermal-IsOnPaper p cfg bill)
      (print_pdf-IsFiled w cfg.bill_pdf_output_dir bill)
