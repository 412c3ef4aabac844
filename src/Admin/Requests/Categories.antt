-- ===== src/Admin/Requests/Categories.antt =====
-- The category of a dish belongs to the restaurant of the dish.
use goi_mon.Prelude.{
  ℕ, Bool, true, ◌&&◌, Option, none, some, List, [], ◌∷◌, ◌++◌, ◌==◌, ◌≡◌, refl, ap, ◌∙◌, arith,
  eq_of_==, All, All-map, All-append, inl, inr,
}
use goi_mon.Sql.{select, update, first}
use goi_mon.Sql.Rows.{All-update, All-and}
use goi_mon.Sql.Keyed.{find, find-All}
use goi_mon.Sql.Owned.{own-find}
use goi_mon.Model.{Db, MenuCategory, MenuItem}
use goi_mon.Storage.{Config}
use goi_mon.Auth.{TokenPayload}
use goi_mon.Admin.{Office}
use goi_mon.Admin.Settings.{write_pin, write_settings}
use goi_mon.Admin.Tables.{insert_table, write_table}
use goi_mon.Admin.Menu.{
  CategoryUpdate, present, write_category, insert_category, insert_menu_item, write_menu_item,
  find_own_menu_item, find_own_category, is_own_category, patch_category,
}
use goi_mon.Admin.Requests.{Request, Outside, handle}
use goi_mon.Admin.Requests.Edits.{
  Edit, unchanged, changed_pin, changed_settings, added_category, changed_category, added_item,
  changed_item, added_table, changed_table, KeepsDish,
}
use goi_mon.Admin.Requests.Isolation.{HasKeys, dish_key}
use goi_mon.Admin.Requests.Outcomes.{handle-Edit}

-- Every dish has no category, or one of its own restaurant.
abbrev pub HasOwnCategories : Db → Type 0
HasOwnCategories db =
    All (λ m. is_own_category m.category_id m.restaurant_id db ≡ true) db.menu_items

module _ {A : Type 0} (p : A → Bool) where
  present-append :
      (xs ys : List A)
      → present (first (select p xs)) ≡ true
      → present (first (select p (xs ++ ys))) ≡ true
  unfolding first select
  present-append [] ys h = absurd (cc)
  present-append (x ∷ xs) ys h = ground (arith, present-append xs ys)

  present-update :
      (q : A → Bool) (f : A → A) (xs : List A)
      → ((x : A) → p (f x) ≡ p x)
      → present (first (select p (update q f xs))) ≡ present (first (select p xs))
  unfolding first select update
  present-update q f [] same = refl
  present-update q f (x ∷ xs) same = ground (arith, same x, present-update q f xs same)

module _ (rid : ℕ) (db : Db) where
  own-insert :
      (new : MenuCategory) (c : Option ℕ)
      → is_own_category c rid db ≡ true
      → is_own_category c rid (insert_category new db) ≡ true
  unfolding is_own_category find_own_category
  own-insert new none h = refl
  own-insert new (some c) h =
      present-append (λ k. k.id == c && k.restaurant_id == rid) db.categories (new ∷ []) h

  own-write :
      (body : CategoryUpdate) (id : ℕ) (c : Option ℕ)
      → is_own_category c rid db ≡ true
      → is_own_category c rid (write_category body id db) ≡ true
  unfolding is_own_category find_own_category
  own-write body id none h = refl
  own-write body id (some c) h =
      present-update (λ k. k.id == c && k.restaurant_id == rid) (λ k. k.id == id)
        (patch_category body) db.categories (λ k. unfold patch_category in refl)
      ∙ h

  -- Where only other tables change, a category is as own as before.
  own-same :
      (db' : Db) (c : Option ℕ)
      → db'.categories ≡ db.categories
      → is_own_category c rid db ≡ true
      → is_own_category c rid db' ≡ true
  unfolding is_own_category find_own_category
  own-same db' none same h = refl
  own-same db' (some c) same h = rw same h

-- Dishes that have own categories still do.
still_own :
    (db db' : Db) (ms : List MenuItem)
    → ((rid : ℕ) (c : Option ℕ)
        → is_own_category c rid db ≡ true
        → is_own_category c rid db' ≡ true)
    → All (λ m. is_own_category m.category_id m.restaurant_id db ≡ true) ms
    → All (λ m. is_own_category m.category_id m.restaurant_id db' ≡ true) ms
still_own db db' ms own h =
    All-map (λ m. is_own_category m.category_id m.restaurant_id db ≡ true)
      (λ m. is_own_category m.category_id m.restaurant_id db' ≡ true) ms
      (λ m. own m.restaurant_id m.category_id) h

own-at :
    (db : Db) (c d : Option ℕ) (r s : ℕ)
    → d ≡ c
    → s ≡ r
    → is_own_category c r db ≡ true
    → is_own_category d s db ≡ true
own-at db c d r s e k h = rw (e, k) h

module _ {rid : ℕ} {db : Db} (keys : HasKeys db) (own : HasOwnCategories db) where
  -- A rewritten dish of the restaurant.
  rewritten_own :
      (f : MenuItem → MenuItem) (m : MenuItem)
      → KeepsDish rid db f
      → is_own_category m.category_id m.restaurant_id db ≡ true
      → m.restaurant_id ≡ rid
      → is_own_category (f m).category_id (f m).restaurant_id db ≡ true
  rewritten_own f m keeps before mine = elim (keeps m).2 [
    | inl same ↦
        own-at db m.category_id (f m).category_id m.restaurant_id (f m).restaurant_id same
          (keeps m).1 before
    | inr now ↦
        own-at db (f m).category_id (f m).category_id rid (f m).restaurant_id refl
          ((keeps m).1 ∙ mine) now
  ]

  -- An edit leaves every dish with no category, or with one of its own restaurant.
  Edit-HasOwnCategories : {db' : Db} → Edit rid db db' → HasOwnCategories db'
  Edit-HasOwnCategories (unchanged e) = rw e own
  Edit-HasOwnCategories (changed_pin u hash h e) =
      rw e (still_own db (write_pin u.id hash db) db.menu_items (λ r c. own-same r db _ c refl) own)
  Edit-HasOwnCategories (changed_settings stamp body s h e) = rw e (
      still_own db (write_settings stamp body s.restaurant_id db) db.menu_items
        (λ r c. own-same r db _ c refl) own)
  Edit-HasOwnCategories (added_category c mine e) =
      rw e (still_own db (insert_category c db) db.menu_items (λ r. own-insert r db c) own)
  Edit-HasOwnCategories (changed_category id body c h e) =
      rw e (
        still_own db (write_category body c.id db) db.menu_items (λ r. own-write r db body c.id)
          own)
  Edit-HasOwnCategories (added_item m mine has e) =
      let db₁ = insert_menu_item m db in
      let keep = λ (r : ℕ) (c : Option ℕ). own-same r db db₁ c refl in
      rw e (
        All-append (λ x. is_own_category x.category_id x.restaurant_id db₁ ≡ true) db.menu_items
          (m ∷ []) (still_own db db₁ db.menu_items keep own)
          (
            keep m.restaurant_id m.category_id
                (own-at db m.category_id m.category_id rid m.restaurant_id refl mine has),
            tt,
          ))
  Edit-HasOwnCategories (changed_item id f m h keeps e) =
      let (here, same, mine) =
        own-find dish_key id (λ m'. m'.restaurant_id == rid) db.menu_items m keys.dishes
          (unfold find_own_menu_item in h) in
      let db₁ = write_menu_item f m.id db in
      rw e (
        still_own db db₁ db₁.menu_items (λ r c. own-same r db db₁ c refl)
          (All-update
            (λ x.
              (is_own_category x.category_id x.restaurant_id db ≡ true)
              × (x.id ≡ m.id → (x.restaurant_id == rid) ≡ true))
            (λ x. is_own_category x.category_id x.restaurant_id db ≡ true) (λ x. x.id == m.id) f
            db.menu_items
            (λ x p hit.
              rewritten_own f x keeps p.0
                (eq_of_== x.restaurant_id rid (p.1 (eq_of_== x.id m.id hit))))
            (λ x p miss. p.0)
            (All-and (λ x. is_own_category x.category_id x.restaurant_id db ≡ true)
              (λ x. x.id ≡ m.id → (x.restaurant_id == rid) ≡ true) db.menu_items own
              (find-All dish_key (λ x. (x.restaurant_id == rid) ≡ true) m.id db.menu_items m
                keys.dishes (ap (λ (i : ℕ). find dish_key i db.menu_items) same ∙ here) mine))))
  Edit-HasOwnCategories (added_table t mine e) =
      rw e (still_own db (insert_table t db) db.menu_items (λ r c. own-same r db _ c refl) own)
  Edit-HasOwnCategories (changed_table id f t h keeps e) =
      rw e (still_own db (write_table f t.id db) db.menu_items (λ r c. own-same r db _ c refl) own)

-- On a database with unique ids of users, settings, categories, dishes and tables: if every dish
-- has no category or a category of its own restaurant, then this still holds after any request of
-- the admin routers.
pub handle-HasOwnCategories :
    {Image : Type 0} (cfg : Config) (ext : Outside Image) (user : TokenPayload) (o : Office)
    (q : Request)
    → HasKeys o.db
    → HasOwnCategories o.db
    → HasOwnCategories (handle cfg ext user q o).1.db
handle-HasOwnCategories cfg ext user o q keys own =
    Edit-HasOwnCategories keys own (handle-Edit cfg ext user o q)
