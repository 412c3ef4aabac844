-- ===== src/Admin/Menu.antt =====
-- qorder_api/api/admin_menu_router.py with qorder_api/schemas/menu.py: categories and dishes.
pub mod Patches
use goi_mon.Prelude.{
  ℕ, String, Bool, true, false, ◌&&◌, ◌||◌, not, Option, none, some, List, [], ◌∷◌, ◌++◌, ◌==◌,
  Exec, ok, err, raise_if, or_raise, pure, ◌>>=◌, ◌>>◌, Result,
}
use goi_mon.Sql.{select, update, first}
use goi_mon.Sql.Keyed.{find}
use goi_mon.Model.{MenuCategory, MenuItem, RestaurantSettings, Db, settings_key}
use goi_mon.Http.{HttpError, invalid_body, unknown_category, unknown_menu_item, foreign_category}
use goi_mon.Auth.{TokenPayload}
use goi_mon.Customer.Menu.{order_by, category_order, item_order}
use goi_mon.Admin.{
  Office, Change, unset, null, to, assign, assign_optional, is_null, every_value, has_length,
  gets_db, commit,
}

-- MenuCategoryCreate
pub record CategoryCreate : Type 0 where
  pub name : String
  pub sort_order : ℕ

unfoldable pub new_category : ℕ → ℕ → ℕ → CategoryCreate → MenuCategory
new_category now id restaurant_id body = record {
  id = id;
  restaurant_id = restaurant_id;
  name = body.name;
  sort_order = body.sort_order;
  is_active = true;
  created_at = now;
}

abbrev pub insert_category : MenuCategory → Db → Db
insert_category c db = record db { categories = db.categories ++ c ∷ [] }

unfoldable pub create_menu_category :
    ℕ → ℕ → CategoryCreate → TokenPayload → Exec Office HttpError MenuCategory
create_menu_category now id body user = do
  raise_if (not (has_length 1 200 body.name)) invalid_body
  let category = new_category now id user.restaurant_id body
  commit false (insert_category category)
  pure category

-- ORDER BY sort_order, name; the collation of the database breaks ties, which is a parameter: it
-- brings rows of one restaurant into the order of their names.
unfoldable pub list_menu_categories :
    (List MenuCategory → List MenuCategory)
    → TokenPayload
    → Exec Office HttpError (List MenuCategory)
unfolding select order_by
list_menu_categories by_name user = gets_db λ db.
    order_by category_order
      (by_name (select (λ c. c.restaurant_id == user.restaurant_id) db.categories))

unfoldable pub find_own_category : ℕ → ℕ → Db → Option MenuCategory
unfolding select first
find_own_category id restaurant_id db =
    first (select (λ c. c.id == id && c.restaurant_id == restaurant_id) db.categories)

-- MenuCategoryUpdate
pub record CategoryUpdate : Type 0 where
  pub name : Change String
  pub sort_order : Change ℕ
  pub is_active : Change Bool

unfoldable pub nulls_category : CategoryUpdate → Bool
nulls_category body = is_null body.name || (is_null body.sort_order || is_null body.is_active)

unfoldable pub patch_category : CategoryUpdate → MenuCategory → MenuCategory
patch_category body c = record c {
  name = assign body.name c.name;
  sort_order = assign body.sort_order c.sort_order;
  is_active = assign body.is_active c.is_active;
}

abbrev pub write_category : CategoryUpdate → ℕ → Db → Db
write_category body id db = record db {
  categories = update (λ c. c.id == id) (patch_category body) db.categories;
}

unfoldable pub update_menu_category :
    ℕ → CategoryUpdate → TokenPayload → Exec Office HttpError MenuCategory
update_menu_category category_id body user = do
  raise_if (not (every_value (has_length 1 200) body.name)) invalid_body
  found ← gets_db (find_own_category category_id user.restaurant_id)
  category ← or_raise found unknown_category
  commit (nulls_category body) (write_category body category.id)
  pure (patch_category body category)

-- MenuItemCreate
pub record ItemCreate : Type 0 where
  pub name : String
  pub description : Option String
  pub price : ℕ
  pub prep_time_minutes : ℕ
  pub category_id : Option ℕ
  pub image_url : Option String
  pub is_featured : Bool
  pub sort_order : ℕ

unfoldable pub new_menu_item : ℕ → ℕ → ℕ → ItemCreate → MenuItem
new_menu_item now id restaurant_id body = record {
  id = id;
  restaurant_id = restaurant_id;
  category_id = body.category_id;
  name = body.name;
  description = body.description;
  price = body.price;
  prep_time_minutes = body.prep_time_minutes;
  is_available = true;
  is_active = true;
  image_url = body.image_url;
  image_large_url = none;
  is_featured = body.is_featured;
  sort_order = body.sort_order;
  created_at = now;
  updated_at = now;
}

abbrev pub present : {A : Type 0} → Option A → Bool
present none = false
present (some _) = true

-- No category, or one of the restaurant.
unfoldable pub is_own_category : Option ℕ → ℕ → Db → Bool
unfolding find_own_category
is_own_category none restaurant_id db = true
is_own_category (some id) restaurant_id db = present (find_own_category id restaurant_id db)

abbrev pub insert_menu_item : MenuItem → Db → Db
insert_menu_item m db = record db { menu_items = db.menu_items ++ m ∷ [] }

unfoldable pub create_menu_item : ℕ → ℕ → ItemCreate → TokenPayload → Exec Office HttpError MenuItem
create_menu_item now id body user = do
  raise_if (not (has_length 1 300 body.name)) invalid_body
  own ← gets_db (is_own_category body.category_id user.restaurant_id)
  raise_if (not own) foreign_category
  let item = new_menu_item now id user.restaurant_id body
  commit false (insert_menu_item item)
  pure item

unfoldable pub list_menu_items :
    (List MenuItem → List MenuItem) → TokenPayload → Exec Office HttpError (List MenuItem)
unfolding select order_by
list_menu_items by_name user = gets_db λ db.
    order_by item_order
      (by_name (select (λ m. m.restaurant_id == user.restaurant_id) db.menu_items))

-- `_get_own_item`, and the same query in `update_menu_item`
unfoldable pub find_own_menu_item : ℕ → ℕ → Db → Option MenuItem
unfolding select first
find_own_menu_item id restaurant_id db =
    first (select (λ m. m.id == id && m.restaurant_id == restaurant_id) db.menu_items)

unfoldable pub get_own_item : ℕ → ℕ → Exec Office HttpError MenuItem
get_own_item id restaurant_id = do
  found ← gets_db (find_own_menu_item id restaurant_id)
  or_raise found unknown_menu_item

-- MenuItemUpdate
pub record ItemUpdate : Type 0 where
  pub name : Change String
  pub description : Change String
  pub price : Change ℕ
  pub prep_time_minutes : Change ℕ
  pub category_id : Change ℕ
  pub is_available : Change Bool
  pub is_active : Change Bool
  pub image_url : Change String
  pub is_featured : Change Bool
  pub sort_order : Change ℕ

unfoldable pub nulls_menu_item : ItemUpdate → Bool
nulls_menu_item body =
    is_null body.name
    || (is_null body.price
        || (is_null body.prep_time_minutes
            || (is_null body.is_available
                || (is_null body.is_active
                    || (is_null body.is_featured || is_null body.sort_order)))))

-- The row after the loop of `setattr`, and its `updated_at` after the flush.
unfoldable pub patch_menu_item : ℕ → ItemUpdate → MenuItem → MenuItem
patch_menu_item stamp body m = record {
  id = m.id;
  restaurant_id = m.restaurant_id;
  category_id = assign_optional body.category_id m.category_id;
  name = assign body.name m.name;
  description = assign_optional body.description m.description;
  price = assign body.price m.price;
  prep_time_minutes = assign body.prep_time_minutes m.prep_time_minutes;
  is_available = assign body.is_available m.is_available;
  is_active = assign body.is_active m.is_active;
  image_url = assign_optional body.image_url m.image_url;
  image_large_url = m.image_large_url;
  is_featured = assign body.is_featured m.is_featured;
  sort_order = assign body.sort_order m.sort_order;
  created_at = m.created_at;
  updated_at = stamp;
}

abbrev pub category_change : Change ℕ → Option ℕ
category_change unset = none
category_change null = none
category_change (to c) = some c

abbrev pub write_menu_item : (MenuItem → MenuItem) → ℕ → Db → Db
write_menu_item f id db = record db { menu_items = update (λ m. m.id == id) f db.menu_items }

unfoldable pub update_menu_item : ℕ → ℕ → ItemUpdate → TokenPayload → Exec Office HttpError MenuItem
update_menu_item stamp item_id body user = do
  raise_if (not (every_value (has_length 1 300) body.name)) invalid_body
  found ← gets_db (find_own_menu_item item_id user.restaurant_id)
  item ← or_raise found unknown_menu_item
  own ← gets_db (is_own_category (category_change body.category_id) user.restaurant_id)
  raise_if (not own) foreign_category
  commit (nulls_menu_item body) (write_menu_item (patch_menu_item stamp body) item.id)
  pure (patch_menu_item stamp body item)

-- PrepTimePresetsResponse
pub record Presets : Type 0 where
  pub default_savory_minutes : ℕ
  pub default_light_minutes : ℕ

abbrev presets_of : Option RestaurantSettings → Presets
presets_of none = record { default_savory_minutes = 10; default_light_minutes = 5 }
presets_of (some s) = record {
  default_savory_minutes = s.default_savory_minutes;
  default_light_minutes = s.default_light_minutes;
}

unfoldable pub get_prep_time_presets : TokenPayload → Exec Office HttpError Presets
unfolding find
get_prep_time_presets user =
    gets_db (λ db. presets_of (find settings_key user.restaurant_id db.settings))
