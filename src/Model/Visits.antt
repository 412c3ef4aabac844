-- ===== src/Model/Visits.antt =====
-- qorder_api/models/table.py, qorder_api/models/session.py and qorder_api/models/staff_call.py
use goi_mon.Prelude.{ℕ, Bool, Option, String}
use goi_mon.Model.Enums.{SessionStatus, StaffCallStatus}

pub record Table : Type 0 where
  pub id : ℕ
  pub restaurant_id : ℕ
  pub table_number : String
  pub qr_token : String
  pub qr_image_url : Option String
  pub is_active : Bool
  pub created_at : ℕ

pub record TableSession : Type 0 where
  pub id : ℕ
  pub restaurant_id : ℕ
  pub table_id : ℕ
  pub status : SessionStatus
  pub opened_by : Option ℕ
  pub opened_at : ℕ
  pub last_activity_at : ℕ
  pub closed_at : Option ℕ
  pub abandoned_at : Option ℕ
  pub total_amount : Option ℕ

pub record StaffCall : Type 0 where
  pub id : ℕ
  pub restaurant_id : ℕ
  pub table_id : ℕ
  pub table_session_id : ℕ
  pub status : StaffCallStatus
  pub created_at : ℕ
  pub acknowledged_at : Option ℕ
  pub acknowledged_by : Option ℕ
