-- ===== src/Reporting/Runs.antt =====
-- What a run of the report job leaves in the sheets.
use goi_mon.Prelude.{
  ℕ, String, Option, none, some, List, [], ◌∷◌, ◌++◌, map, ◌≡◌, ◌≢◌, refl, ap, sym, ◌∙◌, arith, All,
  Bool-cases, inl, inr,
}
use text.Mathlib.Text.{◌==◌ as str_eq}
use text.Mathlib.TextEquality.{eq_iff}
use goi_mon.Sql.{select}
use goi_mon.Model.{Db, settings_key}
use goi_mon.Storage.{lookup_key}
use goi_mon.Reporting.Queries.{revenue_data, top_items_data}
use goi_mon.Reporting.{
  Gspread, Spreadsheet, Drive, write_to_sheet, report_sheet, do_sync, sync, sync_all,
  run_report_sync, has_sheet,
}
use goi_mon.Reporting.Sheets.{Answers, report, unequal, write-other, write-here, write-done}

module _ (g : Gspread) (date : ℕ → ℕ) (since : ℕ) where
  -- The report of a restaurant, by the queries on a database.
  abbrev pub report_of : Db → ℕ → Spreadsheet
  report_of db rid = report (revenue_data date since rid db) (top_items_data since rid db)

  sync-some :
      (db : Db) (rid : ℕ) (drive : Drive) (id : String)
      → report_sheet rid db ≡ some id
      → sync g date since db rid drive
        ≡ (write_to_sheet g id
            (revenue_data date since rid db)
            (top_items_data since rid db)
            drive).1
  unfolding sync do_sync
  sync-some db rid drive id e = ground arith

  sync-none :
      (db : Db) (rid : ℕ) (drive : Drive)
      → report_sheet rid db ≡ none
      → sync g date since db rid drive ≡ drive
  unfolding sync do_sync
  sync-none db rid drive e = ground arith

  sync-other :
      (db : Db) (rid : ℕ) (drive : Drive) (j : String) (found : Option String)
      → report_sheet rid db ≡ found
      → found ≢ some j
      → lookup_key j (sync g date since db rid drive) ≡ lookup_key j drive
  sync-other db rid drive j none e other = ap (lookup_key j) (sync-none db rid drive e)
  sync-other db rid drive j (some id) e other =
      ap (lookup_key j) (sync-some db rid drive id e)
      ∙ write-other g id (revenue_data date since rid db) (top_items_data since rid db) j drive
          (lookup_key id drive) refl (unequal id j (λ same. other (ap some same)))

  sync-keeps :
      (db : Db) (rid : ℕ) (drive : Drive) (j : String) (s : Spreadsheet) (found : Option String)
      → report_sheet rid db ≡ found
      → lookup_key j drive ≡ some s
      → (s' : Spreadsheet) × (lookup_key j (sync g date since db rid drive) ≡ some s')
  sync-keeps db rid drive j s none e here = (s, ap (lookup_key j) (sync-none db rid drive e) ∙ here)
  sync-keeps db rid drive j s (some id) e here =
      let rs = revenue_data date since rid db in
      let ts = top_items_data since rid db in
      elim (Bool-cases (str_eq id j)) [
        | inl same ↦
            let eq = (eq_iff id j).0 same in
            let (s', there) =
              write-here g id rs ts drive s (ap (λ (k : String). lookup_key k drive) eq ∙ here) in
            (
              s',
              ap (lookup_key j) (sync-some db rid drive id e)
                  ∙ ap (λ (k : String). lookup_key k (write_to_sheet g id rs ts drive).1) (sym eq)
                  ∙ there,
            )
        | inr other ↦ (
          s,
          ap (lookup_key j) (sync-some db rid drive id e)
              ∙ write-other g id rs ts j drive (lookup_key id drive) refl other
              ∙ here,
        )
      ]

  module _ (at : ℕ → Db) (j : String) where
    sync_all_keeps :
        (rids : List ℕ) (drive : Drive) (s : Spreadsheet)
        → lookup_key j drive ≡ some s
        → (s' : Spreadsheet) × (lookup_key j (sync_all g date since at rids drive) ≡ some s')
    unfolding sync_all
    sync_all_keeps [] drive s here = (s, here)
    sync_all_keeps (r ∷ rids) drive s here =
        let (s', there) = sync-keeps (at r) r drive j s (report_sheet r (at r)) refl here in
        sync_all_keeps rids (sync g date since (at r) r drive) s' there

    sync_all_spares :
        (rids : List ℕ) (drive : Drive)
        → All (λ r. report_sheet r (at r) ≢ some j) rids
        → lookup_key j (sync_all g date since at rids drive) ≡ lookup_key j drive
    unfolding sync_all
    sync_all_spares [] drive h = refl
    sync_all_spares (r ∷ rids) drive (n, h) =
        sync_all_spares rids (sync g date since (at r) r drive) h
        ∙ sync-other (at r) r drive j (report_sheet r (at r)) refl n

    sync_all_first :
        (r : ℕ) (rids : List ℕ) (drive : Drive)
        → sync_all g date since at (r ∷ rids) drive
          ≡ sync_all g date since at rids (sync g date since (at r) r drive)
    unfolding sync_all
    sync_all_first r rids drive = refl

    sync_all-append :
        (rids more : List ℕ) (drive : Drive)
        → sync_all g date since at (rids ++ more) drive
          ≡ sync_all g date since at more (sync_all g date since at rids drive)
    unfolding sync_all
    sync_all-append [] more drive = refl
    sync_all-append (r ∷ rids) more drive =
        sync_all-append rids more (sync g date since (at r) r drive)

    -- If a restaurant has a report sheet that exists, when the run lists the restaurants and when
    -- it is its turn, the Sheets service answers all calls for that sheet, and no restaurant that
    -- comes later in the run has the same sheet, then after the run the sheet holds the report of
    -- the restaurant, both worksheets by the queries on the database at its turn, whatever failed
    -- for the others.
    pub run_report_sync-report :
        (db : Db) (drive : Drive) (s : Spreadsheet) (before after : List ℕ) (rid : ℕ)
        → map settings_key (select has_sheet db.settings) ≡ before ++ rid ∷ after
        → report_sheet rid (at rid) ≡ some j
        → lookup_key j drive ≡ some s
        → Answers g j
        → All (λ r. report_sheet r (at r) ≢ some j) after
        → lookup_key j (run_report_sync g date since at db drive) ≡ some (report_of (at rid) rid)
    unfolding run_report_sync
    run_report_sync-report db drive s before after rid listed own here answers others =
        let d₁ = sync_all g date since at before drive in
        let (s₁, there) = sync_all_keeps before drive s here in
        let d₂ = sync g date since (at rid) rid d₁ in
        ap (λ (rids : List ℕ). lookup_key j (sync_all g date since at rids drive)) listed
        ∙ ap (lookup_key j) (sync_all-append before (rid ∷ after) drive)
        ∙ ap (lookup_key j) (sync_all_first rid after d₁)
        ∙ sync_all_spares after d₂ others
        ∙ ap (lookup_key j) (sync-some (at rid) rid d₁ j own)
        ∙ write-done g j (revenue_data date since rid (at rid)) (top_items_data since rid (at rid))
            d₁ s₁ answers there
