-- ===== src/Tests/Office.antt =====
-- The owner at the desk: the menu, the settings, the table's code and a photo of a dish.
use goi_mon.Prelude.{
  ℕ, ◌≡◌, ◌≢◌, refl, true, false, none, some, ok, err, [], ◌∷◌, if◌then◌else◌, arith,
}
use text.Mathlib.Text.{◌==◌ as str_eq}
use text.Mathlib.TextEquality.{eq_iff}
use goi_mon.Sql.{select}
use goi_mon.Sql.Keyed.{find}
use goi_mon.Model.{MenuItem}
use goi_mon.Http.{unknown_menu_item, unknown_dish, dish_sold_out, unauthenticated}
use goi_mon.Auth.{Security, staff_login, claims_of, find_slug, is_staff_of}
use goi_mon.Storage.{get_public_url, key_from_public_url, rstrip, strip_prefix}
use goi_mon.Storage.Keys.{key_from_public_url-get_public_url}
use goi_mon.Admin.{to}
use goi_mon.Admin.Menu.{update_menu_item, nulls_menu_item, find_own_menu_item, is_own_category}
use goi_mon.Admin.Menu.Patches.{IsPatched, dish_key, update_menu_item_patches, check_lines-patched}
use goi_mon.Admin.Settings.{reset_staff_pin}
use goi_mon.Admin.Settings.Effects.{reset_staff_pin-staff_login}
use goi_mon.Customer.Orders.{check_lines}
use goi_mon.Admin.Requests.{patch_item, handle, serve}
use goi_mon.Admin.Requests.Access.{IsGuarded, serve-IsGuarded}
use goi_mon.Admin.Requests.Atomic.{handle-IsAtomic}
use goi_mon.Admin.Requests.Categories.{HasOwnCategories, handle-HasOwnCategories}
use goi_mon.Tests.Data.{lunch, linh, pho, dish_of}
use goi_mon.Tests.Desk.{owner, cfg, office, outside, hide, lunch-HasKeys}

handle-IsAtomic_example : (handle cfg outside owner (patch_item 9 99 hide) office).1.db ≡ lunch
unfolding handle update_menu_item find_own_menu_item
handle-IsAtomic_example =
    handle-IsAtomic cfg outside owner office (patch_item 9 99 hide) unknown_menu_item refl

handle-HasOwnCategories_example :
    HasOwnCategories (handle cfg outside owner (patch_item 9 20 hide) office).1.db
unfolding is_own_category
handle-HasOwnCategories_example =
    handle-HasOwnCategories cfg outside owner office (patch_item 9 20 hide) lunch-HasKeys
      (refl, (refl, tt))

update_menu_item_patches_example :
    (new : MenuItem) × ((update_menu_item 9 20 hide owner office).0 ≡ ok new)
    × IsPatched hide (dish_of 20 5000 true) new
    × (find dish_key 20 (update_menu_item 9 20 hide owner office).1.db.menu_items ≡ some new)
    × ((j : ℕ)
        → j ≢ 20
        → find dish_key j (update_menu_item 9 20 hide owner office).1.db.menu_items
          ≡ find dish_key j lunch.menu_items)
unfolding find_own_menu_item is_own_category nulls_menu_item
update_menu_item_patches_example =
    update_menu_item_patches 9 20 hide owner office (dish_of 20 5000 true) lunch-HasKeys.dishes refl
      refl refl refl

abbrev matching : Security
matching = record {
  jwt_decode = λ t. none;
  uuid = λ t. none;
  checkpw = λ pin hash. str_eq pin hash;
}

reset_staff_pin-staff_login_example :
    (staff_login matching "pho" "1234" (reset_staff_pin (λ pin. pin) "9876" owner office).1.db).0
    ≡ (if str_eq "1234" "9876" then ok (claims_of 1 linh) else err unauthenticated)
unfolding select is_staff_of find_slug
reset_staff_pin-staff_login_example =
    reset_staff_pin-staff_login (λ pin. pin) "9876" owner office linh refl refl matching "pho" pho
      "1234" refl refl

key_from_public_url-get_public_url_example :
    key_from_public_url cfg (get_public_url cfg "menu/9/thumb-5.webp") ≡ some "menu/9/thumb-5.webp"
unfolding rstrip strip_prefix
key_from_public_url-get_public_url_example =
    key_from_public_url-get_public_url cfg "menu/9/thumb-5.webp"
      (λ e. ground (arith, eq_iff "menu/9/thumb-5.webp" ""))
      ((refl, (refl, (refl, (refl, (refl, (refl, (refl, (refl, (refl, tt))))))))))

check_lines-patched_example :
    (to false ≡ to false
      → check_lines 1
          (update_menu_item 9 20 hide owner office).1.db
          (record { menu_item_id = 20; quantity = 1; note = none } ∷ [])
        ≡ err unknown_dish)
    × (hide.is_available ≡ to false
        → false ≡ true
        → check_lines 1
            (update_menu_item 9 20 hide owner office).1.db
            (record { menu_item_id = 20; quantity = 1; note = none } ∷ [])
          ≡ err dish_sold_out)
unfolding find_own_menu_item is_own_category nulls_menu_item
check_lines-patched_example =
    check_lines-patched 9 20 hide owner office (dish_of 20 5000 true) lunch-HasKeys.dishes refl refl
      refl refl (update_menu_item 9 20 hide owner office).1.db refl
      (record { menu_item_id = 20; quantity = 1; note = none }) [] refl

-- Every token is an admin's, of the first restaurant.
abbrev trusting : Security
trusting = record {
  jwt_decode = λ t. some (record { sub = some "8"; restaurant_id = some "1"; role = some "admin" });
  uuid = λ t. if str_eq t "1" then some 1 else some 8;
  checkpw = λ pin hash. false;
}

serve-IsGuarded_example :
    IsGuarded trusting
      (some "token")
      office
      (serve cfg outside trusting (some "token") (patch_item 9 20 hide) office)
serve-IsGuarded_example =
    serve-IsGuarded cfg outside trusting office (patch_item 9 20 hide) lunch-HasKeys (some "token")
