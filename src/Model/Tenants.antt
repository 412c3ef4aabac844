-- ===== src/Model/Tenants.antt =====
-- qorder_api/models/restaurant.py and qorder_api/models/user.py
use goi_mon.Prelude.{ℕ, Bool, Option, String}
use goi_mon.Model.Enums.{UserRole}

pub record Restaurant : Type 0 where
  pub id : ℕ
  pub slug : String
  pub name : String
  pub phone : Option String
  pub address : Option String
  pub is_active : Bool
  pub created_at : ℕ
  pub updated_at : ℕ

pub record RestaurantSettings : Type 0 where
  pub restaurant_id : ℕ
  pub currency : String
  pub logo_url : Option String
  pub timezone : String
  pub default_savory_minutes : ℕ
  pub default_light_minutes : ℕ
  pub session_timeout_hours : ℕ
  pub kitchen_screen_requires_pin : Bool
  pub staff_call_cooldown_seconds : ℕ
  pub report_sheet_id : Option String
  pub report_sync_cron : String
  pub bill_footer_note : Option String
  pub updated_at : ℕ

pub record User : Type 0 where
  pub id : ℕ
  pub restaurant_id : ℕ
  pub role : UserRole
  pub email : Option String
  pub password_hash : Option String
  pub pin_hash : Option String
  pub display_name : Option String
  pub is_active : Bool
  pub created_at : ℕ
