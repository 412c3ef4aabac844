-- ===== src/Admin/Requests/Atomic.antt =====
-- Failed requests of the admin routers.
use goi_mon.Prelude.{ℕ, String, List, [], ◌∷◌, ◌≡◌, refl, arith, Result, ok, err}
use goi_mon.Sql.{select}
use goi_mon.Model.{MenuItem, User}
use goi_mon.Storage.{Config, Remote}
use goi_mon.Http.{HttpError}
use goi_mon.Auth.{TokenPayload, is_staff_of}
use goi_mon.Admin.{Office}
use goi_mon.Admin.Settings.{UpdateSettings, reset_staff_pin, reset_member, update_settings}
use goi_mon.Admin.Menu.{
  CategoryCreate, CategoryUpdate, ItemCreate, ItemUpdate, create_menu_category,
  update_menu_category, create_menu_item, update_menu_item, get_own_item,
}
use goi_mon.Admin.Photos.{
  Pillow, Upload, upload_menu_item_image, delete_menu_item_image, replace_photo, discard_images,
}
use goi_mon.Admin.Tables.{
  TableUpdate, create_table, update_table, regenerate_qr, get_restaurant_slug,
}
use goi_mon.Admin.Requests.{
  Request, reset_pin, patch_settings, post_category, patch_category, post_item, patch_item,
  post_image, delete_image, post_table, patch_table, post_qr, Outside, handle, answered,
}

-- A run that started at o and, if it raised, left the database as it was.
abbrev IsAtomic : {A : Type 0} → Office → Result HttpError A × Office → Type 0
IsAtomic o x = (e : HttpError) → x.0 ≡ err e → x.1.db ≡ o.db

answered-IsAtomic :
    {A : Type 0} (o : Office) (x : Result HttpError A × Office)
    → IsAtomic o x
    → IsAtomic o (answered x)
answered-IsAtomic o (ok a, o') h e k = absurd (cc)
answered-IsAtomic o (err e', o') h e k = h e' refl

reset_member-IsAtomic :
    (hashpw : String → String) (pin : String) (members : List User) (o : Office)
    → IsAtomic o (reset_member hashpw pin members o)
unfolding reset_member
reset_member-IsAtomic hashpw pin [] o e h = refl
reset_member-IsAtomic hashpw pin (u ∷ []) o e h = absurd (cc)
reset_member-IsAtomic hashpw pin (u ∷ v ∷ rest) o e h = refl

module _ (user : TokenPayload) (o : Office) where
  pin-IsAtomic :
      (hashpw : String → String) (pin : String) → IsAtomic o (reset_staff_pin hashpw pin user o)
  unfolding reset_staff_pin
  pin-IsAtomic hashpw pin e h = ground (
    arith,
    reset_member-IsAtomic hashpw pin (select (is_staff_of user.restaurant_id) o.db.users) o e,
  )

  settings-IsAtomic :
      (stamp : ℕ) (body : UpdateSettings) → IsAtomic o (update_settings stamp body user o)
  unfolding update_settings
  settings-IsAtomic stamp body e h = ground arith

  new_category-IsAtomic :
      (now id : ℕ) (body : CategoryCreate) → IsAtomic o (create_menu_category now id body user o)
  unfolding create_menu_category
  new_category-IsAtomic now id body e h = ground arith

  category-IsAtomic :
      (id : ℕ) (body : CategoryUpdate) → IsAtomic o (update_menu_category id body user o)
  unfolding update_menu_category
  category-IsAtomic id body e h = ground arith

  new_item-IsAtomic :
      (now id : ℕ) (body : ItemCreate) → IsAtomic o (create_menu_item now id body user o)
  unfolding create_menu_item
  new_item-IsAtomic now id body e h = ground arith

  item-IsAtomic :
      (stamp id : ℕ) (body : ItemUpdate) → IsAtomic o (update_menu_item stamp id body user o)
  unfolding update_menu_item
  item-IsAtomic stamp id body e h = ground arith

  table-IsAtomic : (id : ℕ) (body : TableUpdate) → IsAtomic o (update_table id body user o)
  unfolding update_table
  table-IsAtomic id body e h = ground arith

module _ (cfg : Config) (r : Remote) where
  replace-IsAtomic :
      (version stamp : ℕ) (m : MenuItem) (o : Office) (v : List ℕ × List ℕ)
      → IsAtomic o (replace_photo cfg r version stamp v m o)
  unfolding replace_photo discard_images
  replace-IsAtomic version stamp m o v e h = ground arith

  module _ (user : TokenPayload) (o : Office) where
    upload-IsAtomic :
        {Image : Type 0} (pil : Pillow Image) (version stamp id : ℕ) (file : Upload)
        → IsAtomic o (upload_menu_item_image pil cfg r version stamp id file user o)
    unfolding upload_menu_item_image get_own_item
    upload-IsAtomic pil version stamp id file e h = grind (arith, replace-IsAtomic)

    delete-IsAtomic : (stamp id : ℕ) → IsAtomic o (delete_menu_item_image cfg r stamp id user o)
    unfolding delete_menu_item_image get_own_item discard_images
    delete-IsAtomic stamp id e h = ground arith

    new_table-IsAtomic :
        (png : String → List ℕ) (now id : ℕ) (code number : String)
        → IsAtomic o (create_table cfg r png now id code number user o)
    unfolding create_table get_restaurant_slug
    new_table-IsAtomic png now id code number e h = ground arith

    code-IsAtomic :
        (png : String → List ℕ) (id : ℕ) (code : String)
        → IsAtomic o (regenerate_qr cfg r png id code user o)
    unfolding regenerate_qr get_restaurant_slug
    code-IsAtomic png id code e h = ground arith

module _ {Image : Type 0} (cfg : Config) (ext : Outside Image) (user : TokenPayload)
    (o : Office) where
  -- A request of the admin routers that is answered with an error leaves the database as it was.
  pub handle-IsAtomic :
      (q : Request) (e : HttpError)
      → (handle cfg ext user q o).0 ≡ err e
      → (handle cfg ext user q o).1.db ≡ o.db
  unfolding handle
  handle-IsAtomic (reset_pin pin) = answered-IsAtomic o _ (pin-IsAtomic user o ext.hashpw pin)
  handle-IsAtomic (patch_settings stamp body) =
      answered-IsAtomic o _ (settings-IsAtomic user o stamp body)
  handle-IsAtomic (post_category now id body) =
      answered-IsAtomic o _ (new_category-IsAtomic user o now id body)
  handle-IsAtomic (patch_category id body) =
      answered-IsAtomic o _ (category-IsAtomic user o id body)
  handle-IsAtomic (post_item now id body) =
      answered-IsAtomic o _ (new_item-IsAtomic user o now id body)
  handle-IsAtomic (patch_item stamp id body) =
      answered-IsAtomic o _ (item-IsAtomic user o stamp id body)
  handle-IsAtomic (post_image version stamp id file) =
      answered-IsAtomic o _ (upload-IsAtomic cfg ext.remote user o ext.pil version stamp id file)
  handle-IsAtomic (delete_image stamp id) =
      answered-IsAtomic o _ (delete-IsAtomic cfg ext.remote user o stamp id)
  handle-IsAtomic (post_table now id code number) =
      answered-IsAtomic o _ (new_table-IsAtomic cfg ext.remote user o ext.png now id code number)
  handle-IsAtomic (patch_table id body) = answered-IsAtomic o _ (table-IsAtomic user o id body)
  handle-IsAtomic (post_qr id code) =
      answered-IsAtomic o _ (code-IsAtomic cfg ext.remote user o ext.png id code)
