-- ===== src/Customer/Menu.antt =====
-- `GET /t/{qr_token}`: the restaurant, the table and the menu by categories.
pub mod Sorting
use goi_mon.Prelude.{
  ℕ, String, Bool, true, false, ◌&&◌, Option, none, some, List, [], ◌∷◌, map, ◌==◌, leb,
  if◌then◌else◌, Exec, gets, pure, ◌>>=◌,
}
use goi_mon.Sql.{select}
use goi_mon.Sql.Keyed.{find}
use goi_mon.Model.{MenuCategory, MenuItem, Restaurant, RestaurantSettings, Table, Db, settings_key}
use goi_mon.Realtime.{World}
use goi_mon.Http.{HttpError, resolve}

module _ {A : Type 0} (key : A → ℕ) where
  unfoldable pub insert_sorted : A → List A → List A
  insert_sorted x [] = x ∷ []
  insert_sorted x (y ∷ ys) =
      let rest = insert_sorted x ys in if leb (key x) (key y) then x ∷ y ∷ ys else y ∷ rest

  -- ORDER BY key, rows with equal keys in the order of the table
  unfoldable pub order_by : List A → List A
  unfolding insert_sorted
  order_by [] = []
  order_by (x ∷ xs) = insert_sorted x (order_by xs)

abbrev pub category_order : MenuCategory → ℕ
category_order c = c.sort_order

abbrev pub item_order : MenuItem → ℕ
item_order m = m.sort_order

unfoldable pub active_categories : ℕ → Db → List MenuCategory
unfolding select order_by
active_categories restaurant_id db =
    order_by category_order
      (select (λ c. c.restaurant_id == restaurant_id && c.is_active) db.categories)

unfoldable pub active_items : ℕ → Db → List MenuItem
unfolding select order_by
active_items restaurant_id db =
    order_by item_order
      (select (λ m. m.restaurant_id == restaurant_id && m.is_active) db.menu_items)

abbrev pub in_category : ℕ → Option ℕ → Bool
in_category c none = false
in_category c (some k) = k == c

pub record CategoryEntry : Type 0 where
  pub id : ℕ
  pub name : String
  pub sort_order : ℕ
  pub items : List MenuItem

-- `items_by_category.get(cat.id, [])`
unfoldable pub category_entry : List MenuItem → MenuCategory → CategoryEntry
unfolding select
category_entry items c = record {
  id = c.id;
  name = c.name;
  sort_order = c.sort_order;
  items = select (λ m. in_category c.id m.category_id) items;
}

pub record QrInfo : Type 0 where
  pub name : String
  pub slug : String
  pub currency : String
  pub logo_url : Option String
  pub table_id : ℕ
  pub table_number : String
  pub menu : List CategoryEntry

abbrev currency_of : Option RestaurantSettings → String
currency_of none = "VND"
currency_of (some s) = s.currency

abbrev logo_of : Option RestaurantSettings → Option String
logo_of none = none
logo_of (some s) = s.logo_url

unfoldable pub qr_info : Table → Restaurant → Db → QrInfo
unfolding active_categories active_items category_entry find
qr_info table restaurant db =
    let settings = find settings_key restaurant.id db.settings in
    record {
      name = restaurant.name;
      slug = restaurant.slug;
      currency = currency_of settings;
      logo_url = logo_of settings;
      table_id = table.id;
      table_number = table.table_number;
      menu =
          map (category_entry (active_items restaurant.id db)) (active_categories restaurant.id db);
    }

unfoldable pub resolve_qr : String → Exec World HttpError QrInfo
unfolding resolve qr_info
resolve_qr qr_token = do
  (table, restaurant) ← resolve qr_token
  gets (λ w. qr_info table restaurant w.db)
