-- ===== src/Admin/Requests/Edits.antt =====
-- What a request of the admin routers makes of the database: at most one row of its own restaurant is
-- added or rewritten.
use goi_mon.Prelude.{
  ℕ, String, true, Option, none, some, List, [], ◌∷◌, ◌≡◌, refl, arith, ◌⊎◌, inl, inr, Bool-cases,
}
use goi_mon.Sql.{select}
use goi_mon.Sql.Keyed.{find}
use goi_mon.Model.{Db, MenuCategory, MenuItem, RestaurantSettings, User, Table, settings_key}
use goi_mon.Auth.{TokenPayload, is_staff_of}
use goi_mon.Admin.{Office, Change, unset, null, to, assign_optional}
use goi_mon.Admin.Settings.{
  UpdateSettings, reset_staff_pin, reset_member, update_settings, write_pin, write_settings,
  hash_pin,
}
use goi_mon.Admin.Menu.{
  CategoryCreate, CategoryUpdate, ItemCreate, ItemUpdate, create_menu_category,
  update_menu_category, create_menu_item, update_menu_item, find_own_category, write_category,
  new_category, insert_category, is_own_category, new_menu_item, insert_menu_item,
  find_own_menu_item, patch_menu_item, write_menu_item, category_change,
}
use goi_mon.Admin.Tables.{
  TableUpdate, update_table, find_own_table, insert_table, write_table, patch_table,
}

-- A dish keeps its identity under f, and its category too or else gets one of the restaurant.
abbrev pub KeepsDish : ℕ → Db → (MenuItem → MenuItem) → Type 0
KeepsDish rid db f =
    (m : MenuItem)
    → ((f m).id ≡ m.id)
      × ((f m).restaurant_id ≡ m.restaurant_id)
      × (((f m).category_id ≡ m.category_id) ⊎ (is_own_category (f m).category_id rid db ≡ true))

abbrev pub KeepsTable : (Table → Table) → Type 0
KeepsTable f = (t : Table) → ((f t).id ≡ t.id) × ((f t).restaurant_id ≡ t.restaurant_id)

-- The effect of one request by the owner of the restaurant rid.
pub data Edit (rid : ℕ) (db db' : Db) : Type 0 where
  unchanged : db' ≡ db → Edit rid db db'
  changed_pin :
      (u : User) (hash : String)
      → select (is_staff_of rid) db.users ≡ u ∷ []
      → db' ≡ write_pin u.id hash db
      → Edit rid db db'
  changed_settings :
      (stamp : ℕ) (body : UpdateSettings) (s : RestaurantSettings)
      → find settings_key rid db.settings ≡ some s
      → db' ≡ write_settings stamp body s.restaurant_id db
      → Edit rid db db'
  added_category :
      (c : MenuCategory) → c.restaurant_id ≡ rid → db' ≡ insert_category c db → Edit rid db db'
  changed_category :
      (id : ℕ) (body : CategoryUpdate) (c : MenuCategory)
      → find_own_category id rid db ≡ some c
      → db' ≡ write_category body c.id db
      → Edit rid db db'
  added_item :
      (m : MenuItem)
      → m.restaurant_id ≡ rid
      → is_own_category m.category_id rid db ≡ true
      → db' ≡ insert_menu_item m db
      → Edit rid db db'
  changed_item :
      (id : ℕ) (f : MenuItem → MenuItem) (m : MenuItem)
      → find_own_menu_item id rid db ≡ some m
      → KeepsDish rid db f
      → db' ≡ write_menu_item f m.id db
      → Edit rid db db'
  added_table : (t : Table) → t.restaurant_id ≡ rid → db' ≡ insert_table t db → Edit rid db db'
  changed_table :
      (id : ℕ) (f : Table → Table) (t : Table)
      → find_own_table id rid db ≡ some t
      → KeepsTable f
      → db' ≡ write_table f t.id db
      → Edit rid db db'

-- Either nothing was written, or the edit that e describes.
pub either :
    {rid : ℕ} {db db' : Db} {P : Type 0} → (P → Edit rid db db') → (db' ≡ db) ⊎ P → Edit rid db db'
either e (inl h) = unchanged h
either e (inr p) = e p

module _ (user : TokenPayload) (o : Office) where
  pub member-Edit :
      (hashpw : String → String) (pin : String) (members : List User)
      → select (is_staff_of user.restaurant_id) o.db.users ≡ members
      → Edit user.restaurant_id o.db (reset_member hashpw pin members o).1.db
  unfolding reset_member
  member-Edit hashpw pin [] e = unchanged refl
  member-Edit hashpw pin (u ∷ []) e = changed_pin u (hash_pin hashpw pin) e refl
  member-Edit hashpw pin (u ∷ v ∷ rest) e = unchanged refl

  pub pin_cases :
      (hashpw : String → String) (pin : String)
      → let members = select (is_staff_of user.restaurant_id) o.db.users in
        ((reset_staff_pin hashpw pin user o).1.db ≡ o.db)
        ⊎ ((reset_staff_pin hashpw pin user o).1.db ≡ (reset_member hashpw pin members o).1.db)
  unfolding reset_staff_pin
  pin_cases hashpw pin = ground arith

  pub settings-Edit :
      (stamp : ℕ) (body : UpdateSettings) (found : Option RestaurantSettings)
      → find settings_key user.restaurant_id o.db.settings ≡ found
      → Edit user.restaurant_id o.db (update_settings stamp body user o).1.db
  unfolding update_settings
  settings-Edit stamp body none e = unchanged (ground arith)
  settings-Edit stamp body (some s) e = either (changed_settings stamp body s e) (ground arith)

  pub new_category-Edit :
      (now id : ℕ) (body : CategoryCreate)
      → Edit user.restaurant_id o.db (create_menu_category now id body user o).1.db
  unfolding create_menu_category
  new_category-Edit now id body =
      either
        (added_category (new_category now id user.restaurant_id body) (unfold new_category in refl))
        (ground arith)

  pub category-Edit :
      (id : ℕ) (body : CategoryUpdate) (found : Option MenuCategory)
      → find_own_category id user.restaurant_id o.db ≡ found
      → Edit user.restaurant_id o.db (update_menu_category id body user o).1.db
  unfolding update_menu_category
  category-Edit id body none e = unchanged (ground arith)
  category-Edit id body (some c) e = either (changed_category id body c e) (ground arith)

  pub new_item-Edit :
      (now id : ℕ) (body : ItemCreate)
      → Edit user.restaurant_id o.db (create_menu_item now id body user o).1.db
  unfolding create_menu_item
  new_item-Edit now id body =
      elim (Bool-cases (is_own_category body.category_id user.restaurant_id o.db)) [
        | inl own ↦
            either
              (added_item (new_menu_item now id user.restaurant_id body)
                (unfold new_menu_item in refl) (unfold new_menu_item in own))
              (ground arith)
        | inr alien ↦ unchanged (ground arith)
      ]

  change_own :
      (c : Change ℕ) (old : Option ℕ)
      → is_own_category (category_change c) user.restaurant_id o.db ≡ true
      → (assign_optional c old ≡ old)
        ⊎ (is_own_category (assign_optional c old) user.restaurant_id o.db ≡ true)
  change_own unset old own = inl refl
  change_own null old own = inr own
  change_own (to c) old own = inr own

  patch-KeepsDish :
      (stamp : ℕ) (body : ItemUpdate)
      → is_own_category (category_change body.category_id) user.restaurant_id o.db ≡ true
      → KeepsDish user.restaurant_id o.db (patch_menu_item stamp body)
  unfolding patch_menu_item
  patch-KeepsDish stamp body own m = (refl, refl, change_own body.category_id m.category_id own)

  pub item-Edit :
      (stamp id : ℕ) (body : ItemUpdate) (found : Option MenuItem)
      → find_own_menu_item id user.restaurant_id o.db ≡ found
      → Edit user.restaurant_id o.db (update_menu_item stamp id body user o).1.db
  unfolding update_menu_item
  item-Edit stamp id body none e = unchanged (ground arith)
  item-Edit stamp id body (some m) e =
      elim (Bool-cases
        (is_own_category (category_change body.category_id) user.restaurant_id o.db)) [
          | inl own ↦
              either
                (changed_item id (patch_menu_item stamp body) m e (patch-KeepsDish stamp body own))
                (ground arith)
          | inr alien ↦ unchanged (ground arith)
        ]

  pub table-Edit :
      (id : ℕ) (body : TableUpdate) (found : Option Table)
      → find_own_table id user.restaurant_id o.db ≡ found
      → Edit user.restaurant_id o.db (update_table id body user o).1.db
  unfolding update_table
  table-Edit id body none e = unchanged (ground arith)
  table-Edit id body (some t) e =
      either (changed_table id (patch_table body) t e (λ u. unfold patch_table in (refl, refl)))
        (ground arith)
