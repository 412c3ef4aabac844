-- ===== src/Model/Database.antt =====
-- The tables of the schema, each the list of its rows.
use goi_mon.Prelude.{ℕ, Option, List}
use goi_mon.Sql.Keyed.{find}
use goi_mon.Model.Tenants.{Restaurant, RestaurantSettings, User}
use goi_mon.Model.Menu.{MenuCategory, MenuItem}
use goi_mon.Model.Visits.{Table, TableSession, StaffCall}
use goi_mon.Model.Orders.{Order, OrderItem}

pub record Db : Type 0 where
  pub restaurants : List Restaurant
  pub settings : List RestaurantSettings
  pub users : List User
  pub tables : List Table
  pub categories : List MenuCategory
  pub menu_items : List MenuItem
  pub sessions : List TableSession
  pub orders : List Order
  pub items : List OrderItem
  pub calls : List StaffCall

abbrev pub item_key : OrderItem → ℕ
item_key x = x.id

abbrev pub order_key : Order → ℕ
order_key o = o.id

abbrev pub session_key : TableSession → ℕ
session_key s = s.id

abbrev pub call_key : StaffCall → ℕ
call_key c = c.id

abbrev pub settings_key : RestaurantSettings → ℕ
settings_key r = r.restaurant_id

-- The row with a given primary key.
abbrev pub find_item : ℕ → Db → Option OrderItem
find_item i db = find item_key i db.items

abbrev pub find_order : ℕ → Db → Option Order
find_order i db = find order_key i db.orders

abbrev pub find_session : ℕ → Db → Option TableSession
find_session i db = find session_key i db.sessions

abbrev pub find_call : ℕ → Db → Option StaffCall
find_call i db = find call_key i db.calls
