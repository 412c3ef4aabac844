-- ===== src/Admin/Requests/Isolation.antt =====
-- Tenants: what the owner of one restaurant cannot touch.
use goi_mon.Prelude.{
  ℕ, Bool, true, not, some, List, [], ◌∷◌, ◌==◌, ◌≡◌, refl, ap, ◌∙◌, arith, subst, ==_refl, ◌≢◌,
  All, Bool-cases, inl, inr,
}
use goi_mon.Sql.{select, update}
use goi_mon.Sql.Keyed.{IsKeyed, find, find-key}
use goi_mon.Sql.Owned.{own-find, select-rewritten, select-append_none}
use goi_mon.Model.{Db, MenuCategory, MenuItem, RestaurantSettings, User, Table, settings_key}
use goi_mon.Storage.{Config}
use goi_mon.Auth.{TokenPayload, is_staff_of}
use goi_mon.Admin.{Office}
use goi_mon.Admin.Settings.{set_pin, patch_settings}
use goi_mon.Admin.Menu.{find_own_category, find_own_menu_item, patch_category}
use goi_mon.Admin.Tables.{find_own_table}
use goi_mon.Admin.Requests.{Request, Outside, handle}
use goi_mon.Admin.Requests.Edits.{
  Edit, unchanged, changed_pin, changed_settings, added_category, changed_category, added_item,
  changed_item, added_table, changed_table,
}
use goi_mon.Admin.Requests.Outcomes.{handle-Edit}

-- Everything but what belongs to one restaurant's owner: of users, settings, categories, dishes and
-- tables the rows of the other restaurants, and all restaurants, sessions, orders, items and calls.
abbrev pub elsewhere : ℕ → Db → Db
elsewhere rid db = record db {
  users = select (λ u. not (u.restaurant_id == rid)) db.users;
  settings = select (λ s. not (s.restaurant_id == rid)) db.settings;
  categories = select (λ c. not (c.restaurant_id == rid)) db.categories;
  menu_items = select (λ m. not (m.restaurant_id == rid)) db.menu_items;
  tables = select (λ t. not (t.restaurant_id == rid)) db.tables;
}

abbrev pub user_key : User → ℕ
user_key u = u.id

abbrev pub category_key : MenuCategory → ℕ
category_key c = c.id

abbrev pub dish_key : MenuItem → ℕ
dish_key m = m.id

abbrev pub table_key : Table → ℕ
table_key t = t.id

-- The primary keys.
pub record HasKeys (db : Db) : Type 0 where
  pub users : IsKeyed user_key db.users
  pub settings : IsKeyed settings_key db.settings
  pub categories : IsKeyed category_key db.categories
  pub dishes : IsKeyed dish_key db.menu_items
  pub tables : IsKeyed table_key db.tables

module _ {A : Type 0} (key tenant : A → ℕ) (rid i : ℕ) (f : A → A) (xs : List A) (x : A)
    (keyed : IsKeyed key xs) where
  abbrev alien : A → Bool
  alien y = not (tenant y == rid)

  -- A rewritten own row, which stays own, is not seen from elsewhere.
  rewritten :
      find key i xs ≡ some x
      → (tenant x == rid) ≡ true
      → tenant (f x) ≡ tenant x
      → select (λ y. not (tenant y == rid)) (update (λ y. key y == i) f xs)
        ≡ select (λ y. not (tenant y == rid)) xs
  rewritten here own same =
      select-rewritten key i alien f xs x keyed here (ap not own) (rw same (ap not own))

module _ {A : Type 0} (key : A → ℕ) where
  found-All :
      (P : A → Type 0) (i : ℕ) (xs : List A) (x : A) → All P xs → find key i xs ≡ some x → P x
  unfolding find
  found-All P i [] x h here = absurd (cc)
  found-All P i (y ∷ ys) x (p, h) here = elim (Bool-cases (key y == i)) [
    | inl e ↦ let same : y ≡ x = ground arith in subst P same p
    | inr e ↦ found-All P i ys x h (ground arith)
  ]

  -- The head of a selection is a row that passes, found under its key.
  select-head :
      (q : A → Bool) (xs rest : List A) (x : A)
      → IsKeyed key xs
      → select q xs ≡ x ∷ rest
      → (find key (key x) xs ≡ some x) × (q x ≡ true)
  unfolding select find
  select-head q [] rest x keyed h = absurd (cc)
  select-head q (y ∷ ys) rest x (n, keyed) h = elim (Bool-cases (q y)) [
    | inl e ↦ (ground arith, ground arith)
    | inr e ↦
        let (here, passes) = select-head q ys rest x keyed (ground arith) in
        let ne : key x ≢ key y = found-All (λ z. key z ≢ key y) (key x) ys x n here in
        (ground arith, passes)
  ]

module _ {rid : ℕ} {db : Db} (keys : HasKeys db) where
  -- An edit by the owner of a restaurant is not seen from elsewhere.
  Edit-elsewhere : {db' : Db} → Edit rid db db' → elsewhere rid db' ≡ elsewhere rid db
  Edit-elsewhere (unchanged e) = rw e
  Edit-elsewhere (changed_pin u hash h e) =
      let (here, staff) = select-head user_key (is_staff_of rid) db.users [] u keys.users h in
      rw e (
        ap (λ (us : List User). record (elsewhere rid db) { users = us })
          (rewritten user_key (λ v. v.restaurant_id) rid u.id (set_pin hash) db.users u keys.users
            here (unfold is_staff_of in ground arith) (unfold set_pin in refl)))
  Edit-elsewhere (changed_settings stamp body s h e) = rw e (
      ap (λ (ss : List RestaurantSettings). record (elsewhere rid db) { settings = ss })
        (rewritten settings_key settings_key rid s.restaurant_id (patch_settings stamp body)
          db.settings s keys.settings
          (ap (λ (i : ℕ). find settings_key i db.settings)
              (find-key settings_key rid db.settings s h)
            ∙ h)
          (unfold is_staff_of in rw (find-key settings_key rid db.settings s h) (==_refl rid))
          (unfold patch_settings in refl)))
  Edit-elsewhere (added_category c mine e) = rw e (
      ap (λ (cs : List MenuCategory). record (elsewhere rid db) { categories = cs })
        (select-append_none (λ c'. not (c'.restaurant_id == rid)) c db.categories
          (rw mine (ap not (==_refl rid)))))
  Edit-elsewhere (changed_category id body c h e) =
      let (here, same, mine) =
        own-find category_key id (λ c'. c'.restaurant_id == rid) db.categories c keys.categories
          (unfold find_own_category in h) in
      rw e (
        ap (λ (cs : List MenuCategory). record (elsewhere rid db) { categories = cs })
          (rewritten category_key (λ c'. c'.restaurant_id) rid c.id (patch_category body)
            db.categories c keys.categories
            (ap (λ (i : ℕ). find category_key i db.categories) same ∙ here) mine
            (unfold patch_category in refl)))
  Edit-elsewhere (added_item m mine own e) = rw e (
      ap (λ (ms : List MenuItem). record (elsewhere rid db) { menu_items = ms })
        (select-append_none (λ m'. not (m'.restaurant_id == rid)) m db.menu_items
          (rw mine (ap not (==_refl rid)))))
  Edit-elsewhere (changed_item id f m h keeps e) =
      let (here, same, mine) =
        own-find dish_key id (λ m'. m'.restaurant_id == rid) db.menu_items m keys.dishes
          (unfold find_own_menu_item in h) in
      rw e (
        ap (λ (ms : List MenuItem). record (elsewhere rid db) { menu_items = ms })
          (rewritten dish_key (λ m'. m'.restaurant_id) rid m.id f db.menu_items m keys.dishes
            (ap (λ (i : ℕ). find dish_key i db.menu_items) same ∙ here) mine (keeps m).1))
  Edit-elsewhere (added_table t mine e) = rw e (
      ap (λ (ts : List Table). record (elsewhere rid db) { tables = ts })
        (select-append_none (λ t'. not (t'.restaurant_id == rid)) t db.tables
          (rw mine (ap not (==_refl rid)))))
  Edit-elsewhere (changed_table id f t h keeps e) =
      let (here, same, mine) =
        own-find table_key id (λ t'. t'.restaurant_id == rid) db.tables t keys.tables
          (unfold find_own_table in h) in
      rw e (
        ap (λ (ts : List Table). record (elsewhere rid db) { tables = ts })
          (rewritten table_key (λ t'. t'.restaurant_id) rid t.id f db.tables t keys.tables
            (ap (λ (i : ℕ). find table_key i db.tables) same ∙ here) mine (keeps t).1))

-- On a database with unique ids of users, settings, categories, dishes and tables, whatever
-- request of the admin routers the owner of a restaurant sends, and whether it succeeds or not,
-- the users, settings, categories, dishes and tables of all other restaurants, and all
-- restaurants, visits, orders, items and calls, are as before.
pub handle-elsewhere :
    {Image : Type 0} (cfg : Config) (ext : Outside Image) (user : TokenPayload) (o : Office)
    (q : Request)
    → HasKeys o.db
    → elsewhere user.restaurant_id (handle cfg ext user q o).1.db
      ≡ elsewhere user.restaurant_id o.db
handle-elsewhere cfg ext user o q keys = Edit-elsewhere keys (handle-Edit cfg ext user o q)
