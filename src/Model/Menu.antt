-- ===== src/Model/Menu.antt =====
-- qorder_api/models/menu.py
use goi_mon.Prelude.{ℕ, Bool, Option, String}

pub record MenuCategory : Type 0 where
  pub id : ℕ
  pub restaurant_id : ℕ
  pub name : String
  pub sort_order : ℕ
  pub is_active : Bool
  pub created_at : ℕ

pub record MenuItem : Type 0 where
  pub id : ℕ
  pub restaurant_id : ℕ
  pub category_id : Option ℕ
  pub name : String
  pub description : Option String
  pub price : ℕ
  pub prep_time_minutes : ℕ
  pub is_available : Bool
  pub is_active : Bool
  pub image_url : Option String
  pub image_large_url : Option String
  pub is_featured : Bool
  pub sort_order : ℕ
  pub created_at : ℕ
  pub updated_at : ℕ
