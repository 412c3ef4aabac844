-- ===== src/Model/Orders.antt =====
-- qorder_api/models/order.py
use goi_mon.Prelude.{ℕ, Option, String}
use goi_mon.Model.Enums.{OrderItemStatus, CancelledBy}

pub record Order : Type 0 where
  pub id : ℕ
  pub restaurant_id : ℕ
  pub table_session_id : ℕ
  pub note : Option String
  pub created_at : ℕ

pub record OrderItem : Type 0 where
  pub id : ℕ
  pub restaurant_id : ℕ
  pub order_id : ℕ
  pub menu_item_id : ℕ
  pub name_snapshot : String
  pub price_snapshot : ℕ
  pub prep_time_snapshot : ℕ
  pub quantity : ℕ
  pub note : Option String
  pub status : OrderItemStatus
  pub requested_at : ℕ
  pub served_by : Option ℕ
  pub served_at : Option ℕ
  pub cancelled_by : Option CancelledBy
  pub cancelled_at : Option ℕ
  pub cancel_reason : Option String
