-- ===== src/Admin/Menu/Patches.antt =====
-- `PATCH /admin/menu-items/{id}`: which fields it changes, and what guests may order afterwards.
use goi_mon.Prelude.{
  ℕ, Bool, true, false, ◌&&◌, Option, none, some, List, ◌∷◌, ◌==◌, ◌≡◌, ◌≢◌, refl, ap, sym, ◌∙◌,
  arith, Result, ok, err, subst, if◌then◌else◌,
}
use goi_mon.Sql.{select, update, first}
use goi_mon.Sql.Keyed.{IsKeyed, find, first-select, kept, update-IsKeyed}
use goi_mon.Sql.Owned.{own-find, find-rewritten, find-spared}
use goi_mon.Model.{Db, MenuItem}
use goi_mon.Auth.{TokenPayload}
use goi_mon.Http.{HttpError, unknown_dish, dish_sold_out}
use goi_mon.Customer.Orders.{OrderLine, find_dish, check_dish, check_lines}
use goi_mon.Admin.{
  Office, Change, unset, null, to, is_null, assign, assign_optional, every_value, has_length,
}
use goi_mon.Admin.Menu.{
  ItemUpdate, update_menu_item, find_own_menu_item, is_own_category, category_change,
  nulls_menu_item, patch_menu_item, write_menu_item,
}

abbrev pub dish_key : MenuItem → ℕ
dish_key m = m.id

-- A column that takes no NULL: it keeps its value, or has the one that was sent.
abbrev pub Follows : {A : Type 0} → Change A → A → A → Type 0
Follows unset old new = new ≡ old
Follows null old new = ⊥
Follows (to v) old new = new ≡ v

-- A nullable column.
abbrev pub FollowsOptional : {A : Type 0} → Change A → Option A → Option A → Type 0
FollowsOptional unset old new = new ≡ old
FollowsOptional null old new = new ≡ none
FollowsOptional (to v) old new = new ≡ some v

pub record IsPatched (body : ItemUpdate) (old new : MenuItem) : Type 0 where
  pub name : Follows body.name old.name new.name
  pub description : FollowsOptional body.description old.description new.description
  pub price : Follows body.price old.price new.price
  pub prep_time : Follows body.prep_time_minutes old.prep_time_minutes new.prep_time_minutes
  pub category : FollowsOptional body.category_id old.category_id new.category_id
  pub available : Follows body.is_available old.is_available new.is_available
  pub active : Follows body.is_active old.is_active new.is_active
  pub image : FollowsOptional body.image_url old.image_url new.image_url
  pub featured : Follows body.is_featured old.is_featured new.is_featured
  pub order : Follows body.sort_order old.sort_order new.sort_order
  pub id : new.id ≡ old.id
  pub tenant : new.restaurant_id ≡ old.restaurant_id
  pub large_image : new.image_large_url ≡ old.image_large_url
  pub created : new.created_at ≡ old.created_at

follows : {A : Type 0} (c : Change A) (old : A) → is_null c ≡ false → Follows c old (assign c old)
follows unset old h = refl
follows null old h = absurd (cc)
follows (to v) old h = refl

follows_optional :
    {A : Type 0} (c : Change A) (old : Option A) → FollowsOptional c old (assign_optional c old)
follows_optional unset old = refl
follows_optional null old = refl
follows_optional (to v) old = refl

patch-IsPatched :
    (stamp : ℕ) (body : ItemUpdate) (m : MenuItem)
    → nulls_menu_item body ≡ false
    → IsPatched body m (patch_menu_item stamp body m)
unfolding patch_menu_item nulls_menu_item
patch-IsPatched stamp body m full = record {
  name = follows body.name m.name (ground arith);
  description = follows_optional body.description m.description;
  price = follows body.price m.price (ground arith);
  prep_time = follows body.prep_time_minutes m.prep_time_minutes (ground arith);
  category = follows_optional body.category_id m.category_id;
  available = follows body.is_available m.is_available (ground arith);
  active = follows body.is_active m.is_active (ground arith);
  image = follows_optional body.image_url m.image_url;
  featured = follows body.is_featured m.is_featured (ground arith);
  order = follows body.sort_order m.sort_order (ground arith);
  id = refl;
  tenant = refl;
  large_image = refl;
  created = refl;
}

first_line :
    (rid : ℕ) (db : Db) (l : OrderLine) (ls : List OrderLine) (e : HttpError)
    (found : Option MenuItem)
    → find_dish rid l.menu_item_id db ≡ found
    → check_dish found ≡ err e
    → check_lines rid db (l ∷ ls) ≡ err e
unfolding check_lines
first_line rid db l ls e found h refused = ground arith

module _ (stamp id : ℕ) (body : ItemUpdate) (user : TokenPayload) (o : Office) (m : MenuItem)
    (keyed : IsKeyed dish_key o.db.menu_items)
    (found : find_own_menu_item id user.restaurant_id o.db ≡ some m)
    (named : every_value (has_length 1 300) body.name ≡ true)
    (own : is_own_category (category_change body.category_id) user.restaurant_id o.db ≡ true)
    (full : nulls_menu_item body ≡ false) where
  patched : update_menu_item stamp id body user o ≡ (
    ok (patch_menu_item stamp body m),
    record o { db = write_menu_item (patch_menu_item stamp body) m.id o.db },
  )
  unfolding update_menu_item
  patched = ground arith

  m_found :
      (find dish_key id o.db.menu_items ≡ some m)
      × (m.id ≡ id)
      × (m.restaurant_id == user.restaurant_id ≡ true)
  m_found =
      own-find dish_key id (λ m'. m'.restaurant_id == user.restaurant_id) o.db.menu_items m keyed
        (unfold find_own_menu_item in found)

  -- On a database with unique ids of dishes, the PATCH of an own dish, with a name of 1 to 300
  -- characters if there is one, a category of the restaurant if there is one, and no explicit
  -- null for a column that takes none, succeeds: the dish is stored and returned with each field
  -- that the body has taking its value, or NULL, and each other one as before, the time of the
  -- update apart; no other dish changes.
  pub update_menu_item_patches :
      let (q, o') = update_menu_item stamp id body user o in
      (new : MenuItem) × (q ≡ ok new)
      × IsPatched body m new
      × (find dish_key id o'.db.menu_items ≡ some new)
      × ((j : ℕ) → j ≢ id → find dish_key j o'.db.menu_items ≡ find dish_key j o.db.menu_items)
  update_menu_item_patches =
      let new = patch_menu_item stamp body m in
      let row = patch_menu_item stamp body in
      let keeps : (x : MenuItem) → (row x).id ≡ x.id = λ x. unfold patch_menu_item in refl in
      let (here, same, mine) = m_found in
      subst
        (λ (x : Result HttpError MenuItem × Office).
          (n : MenuItem) × (x.0 ≡ ok n)
          × IsPatched body m n
          × (find dish_key id x.1.db.menu_items ≡ some n)
          × ((j : ℕ)
              → j ≢ id
              → find dish_key j x.1.db.menu_items ≡ find dish_key j o.db.menu_items))
        (sym patched)
        (
          new,
          refl,
          patch-IsPatched stamp body m full,
          subst
              (λ (k : ℕ). find dish_key id (update (λ x. x.id == k) row o.db.menu_items) ≡ some new)
              (sym same) (find-rewritten dish_key id row o.db.menu_items m keeps here),
          λ j ne. find-spared dish_key m.id j row o.db.menu_items keeps (λ e. ne (e ∙ same)),
        )

  -- What guests find under the id of the dish after a successful PATCH.
  dish-found :
      (db : Db)
      → db ≡ (update_menu_item stamp id body user o).1.db
      → find_dish user.restaurant_id id db ≡ (
          if (patch_menu_item stamp body m).is_active
          then some (patch_menu_item stamp body m)
          else none)
  unfolding find_dish
  dish-found db now =
      let row = patch_menu_item stamp body in
      let keeps : (x : MenuItem) → (row x).id ≡ x.id = λ x. unfold patch_menu_item in refl in
      let (here, same, mine) = m_found in
      let ms = update (λ x. x.id == m.id) row o.db.menu_items in
      let stored : db.menu_items ≡ ms =
        ap (λ (d : Db). d.menu_items) now
        ∙ ap (λ (x : Result HttpError MenuItem × Office). x.1.db.menu_items) patched in
      let q : MenuItem → Bool = λ x. x.restaurant_id == user.restaurant_id && x.is_active in
      ap (λ (xs : List MenuItem). first (select (λ x. x.id == id && q x) xs)) stored
      ∙ first-select dish_key id q ms
          (update-IsKeyed dish_key (λ x. x.id == m.id) row o.db.menu_items keeps keyed)
      ∙ ap (kept dish_key q) (
          subst
            (λ (k : ℕ).
              find dish_key id (update (λ x. x.id == k) row o.db.menu_items)
              ≡ some (patch_menu_item stamp body m))
            (sym same) (find-rewritten dish_key id row o.db.menu_items m keeps here))
      ∙ (unfold patch_menu_item in
          ap
            (λ (t : Bool).
              if t && assign body.is_active m.is_active
              then some (patch_menu_item stamp body m)
              else none)
            mine)

  module _ (db : Db) (now : db ≡ (update_menu_item stamp id body user o).1.db) (l : OrderLine)
      (ls : List OrderLine) (line : l.menu_item_id ≡ id) where
    -- After a PATCH that succeeds under the same conditions and hides a dish, an order whose
    -- first line is the dish is refused as one for an unknown dish; after one that marks it as
    -- not available, where it is shown afterwards, such an order is refused as one for a dish
    -- that is sold out.
    pub check_lines-patched :
        (body.is_active ≡ to false → check_lines user.restaurant_id db (l ∷ ls) ≡ err unknown_dish)
        × (body.is_available ≡ to false
            → assign body.is_active m.is_active ≡ true
            → check_lines user.restaurant_id db (l ∷ ls) ≡ err dish_sold_out)
    check_lines-patched =
        let row = patch_menu_item stamp body m in
        let at : find_dish user.restaurant_id l.menu_item_id db
            ≡ (if row.is_active then some row else none) =
          ap (λ (k : ℕ). find_dish user.restaurant_id k db) line ∙ dish-found db now in
        let answer = λ (e : HttpError).
          first_line user.restaurant_id db l ls e (if row.is_active then some row else none) at in
        (
          (λ hidden. answer unknown_dish (unfold patch_menu_item in rw hidden refl)),
          (λ gone shown. answer dish_sold_out (unfold patch_menu_item in rw (shown, gone) refl)),
        )
