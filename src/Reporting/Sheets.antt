-- ===== src/Reporting/Sheets.antt =====
-- Writing a report into one spreadsheet.
use goi_mon.Prelude.{
  String, Bool, true, false, Option, none, some, List, ◌≡◌, ◌≢◌, refl, ap, ◌∙◌, arith, Result, ok,
  Bool-cases, ◌⊎◌, inl, inr, if◌then◌else◌,
}
use text.Mathlib.Text.{◌==◌ as str_eq}
use text.Mathlib.TextEquality.{eq_iff}
use text.Mathlib.TextPositions.{eq_refl}
use goi_mon.Storage.{lookup_key}
use goi_mon.Storage.Objects.{lookup-put}
use goi_mon.Reporting.Queries.{RevenueRow, TopItem}
use goi_mon.Reporting.{
  Gspread, Worksheet, revenue, top_items, Spreadsheet, Drive, Row, SyncFault, cells, set_cells,
  get_worksheet, write_worksheet, write_worksheets, revenue_cells, item_cells, put_sheet,
  write_to_sheet,
}

pub unequal : (s t : String) → s ≢ t → str_eq s t ≡ false
unequal s t ne = ground (arith, eq_iff s t)

-- The service answers every call for a spreadsheet.
abbrev pub Answers : Gspread → String → Type 0
Answers g id =
    (g.authorize ≡ true)
    × ((ws : Worksheet)
        → (g.add_worksheet id ws ≡ true) × (g.clear id ws ≡ true) × (g.update id ws ≡ true))

worksheet-written :
    (g : Gspread) (id : String) (ws : Worksheet) (rows : List Row) (s : Spreadsheet)
    (old : Option (List Row))
    → cells ws s ≡ old
    → g.add_worksheet id ws ≡ true
    → g.clear id ws ≡ true
    → g.update id ws ≡ true
    → write_worksheet g id ws rows s ≡ (ok tt, set_cells ws rows s)
unfolding write_worksheet get_worksheet
worksheet-written g id revenue rows s none e a c u = ground arith
worksheet-written g id revenue rows s (some old) e a c u = ground arith
worksheet-written g id top_items rows s none e a c u = ground arith
worksheet-written g id top_items rows s (some old) e a c u = ground arith

-- The spreadsheet with both worksheets filled.
abbrev pub report : List RevenueRow → List TopItem → Spreadsheet
report rs ts = record { revenue = some (revenue_cells rs); top_items = some (item_cells ts) }

worksheets-written :
    (g : Gspread) (id : String) (rs : List RevenueRow) (ts : List TopItem) (s : Spreadsheet)
    → Answers g id
    → write_worksheets g id rs ts s ≡ (ok tt, report rs ts)
unfolding write_worksheets
worksheets-written g id rs ts s (auth, all) =
    let (a, c, u) = all revenue in
    let (a', c', u') = all top_items in
    let one = worksheet-written g id revenue (revenue_cells rs) s s.revenue refl a c u in
    let s₁ = set_cells revenue (revenue_cells rs) s in
    let two = worksheet-written g id top_items (item_cells ts) s₁ s₁.top_items refl a' c' u' in
    ground arith

module _ (g : Gspread) (id : String) (rs : List RevenueRow) (ts : List TopItem) where
  opened :
      (drive : Drive) (s : Spreadsheet)
      → g.authorize ≡ true
      → lookup_key id drive ≡ some s
      → write_to_sheet g id rs ts drive ≡ put_sheet id (write_worksheets g id rs ts s) drive
  unfolding write_to_sheet
  opened drive s auth e = ground arith

  closed_out :
      (drive : Drive)
      → (g.authorize ≡ false) ⊎ (lookup_key id drive ≡ none)
      → (write_to_sheet g id rs ts drive).1 ≡ drive
  unfolding write_to_sheet
  closed_out drive (inl refused) = ground arith
  closed_out drive (inr gone) = ground arith

  -- Other spreadsheets are not touched.
  pub write-other :
      (j : String) (drive : Drive) (found : Option Spreadsheet)
      → lookup_key id drive ≡ found
      → str_eq id j ≡ false
      → lookup_key j (write_to_sheet g id rs ts drive).1 ≡ lookup_key j drive
  write-other j drive none e other = ap (lookup_key j) (closed_out drive (inr e))
  write-other j drive (some s) e other = elim (Bool-cases g.authorize) [
    | inl auth ↦
        ap (λ (x : Result SyncFault (Unit {0}) × Drive). lookup_key j x.1) (opened drive s auth e)
        ∙ lookup-put j id (write_worksheets g id rs ts s).1 drive
        ∙ ap
            (λ (t : Bool). if t then some (write_worksheets g id rs ts s).1 else lookup_key j drive)
            other
    | inr refused ↦ ap (lookup_key j) (closed_out drive (inl refused))
  ]

  -- The spreadsheet itself is still there.
  pub write-here :
      (drive : Drive) (s : Spreadsheet)
      → lookup_key id drive ≡ some s
      → (s' : Spreadsheet) × (lookup_key id (write_to_sheet g id rs ts drive).1 ≡ some s')
  write-here drive s e = elim (Bool-cases g.authorize) [
    | inl auth ↦
        let q = write_worksheets g id rs ts s in
        (
          q.1,
          ap (λ (x : Result SyncFault (Unit {0}) × Drive). lookup_key id x.1)
                (opened drive s auth e)
              ∙ lookup-put id id q.1 drive
              ∙ ap (λ (t : Bool). if t then some q.1 else lookup_key id drive) (eq_refl id),
        )
    | inr refused ↦ (s, ap (lookup_key id) (closed_out drive (inl refused)) ∙ e)
  ]

  pub write-done :
      (drive : Drive) (s : Spreadsheet)
      → Answers g id
      → lookup_key id drive ≡ some s
      → lookup_key id (write_to_sheet g id rs ts drive).1 ≡ some (report rs ts)
  write-done drive s ok_all e =
      let q = write_worksheets g id rs ts s in
      ap (λ (x : Result SyncFault (Unit {0}) × Drive). lookup_key id x.1)
        (opened drive s ok_all.0 e)
      ∙ lookup-put id id q.1 drive
      ∙ ap (λ (t : Bool). if t then some q.1 else lookup_key id drive) (eq_refl id)
      ∙ ap (λ (x : Result SyncFault (Unit {0}) × Spreadsheet). some x.1)
          (worksheets-written g id rs ts s ok_all)
