-- ===== src/Printing.antt =====
-- qorder_api/printing/models.py, and the settings of the printing service. The printers are child modules.
pub mod Prices
pub mod Thermal
pub mod Documents
pub mod Bills
pub mod Fallback
use goi_mon.Prelude.{ℕ, String, Option, none, some, List}

-- Amounts are `Decimal`s with two places, so in hundredths.
pub record BillItem : Type 0 where
  pub name : String
  pub quantity : ℕ
  pub unit_price : ℕ

pub record BillData : Type 0 where
  pub restaurant_name : String
  pub table_label : String
  pub items : List BillItem
  pub total_amount : ℕ
  pub currency : String
  pub closed_at : ℕ

pub data Method : Type 0 where
  thermal pdf failed : Method

pub record BillResult : Type 0 where
  pub method : Method
  pub pdf_path : Option String
  pub error : Option String

abbrev pub failure : String → BillResult
failure e = record { method = failed; pdf_path = none; error = some e }

-- What `PrintingService` keeps of the settings.
pub record Printing : Type 0 where
  pub printer_type : String
  pub printer_ip : Option String
  pub printer_port : ℕ
  pub bill_pdf_output_dir : String
