-- ===== src/Admin/Requests/Outcomes.antt =====
-- Every request of the admin routers is one edit of the database.
use goi_mon.Prelude.{
  ℕ, String, Option, none, some, List, ◌≡◌, refl, arith, Result, ok, err, subst, sym, ◌+◌, inl,
}
use goi_mon.Sql.{select}
use goi_mon.Sql.Keyed.{find}
use goi_mon.Model.{Db, MenuItem, Table}
use goi_mon.Storage.{Config, Remote, Fault, Bucket}
use goi_mon.Http.{HttpError}
use goi_mon.Auth.{TokenPayload, is_staff_of}
use goi_mon.Admin.{Office}
use goi_mon.Admin.Settings.{reset_staff_pin, reset_member}
use goi_mon.Admin.Menu.{get_own_item, find_own_menu_item}
use goi_mon.Admin.Photos.{
  Pillow, Upload, upload_variants, process_menu_image, read, max_upload_bytes,
  upload_menu_item_image, delete_menu_item_image, replace_photo, discard_images, set_urls,
}
use goi_mon.Admin.Tables.{
  create_table, regenerate_qr, get_restaurant_slug, find_own_table, restaurant_key, upload_qr_image,
  build_qr_url, new_table, set_image, set_token,
}
use goi_mon.Model.{Restaurant}
use goi_mon.Admin.Requests.Edits.{
  Edit, unchanged, changed_item, added_table, changed_table, either, KeepsDish, pin_cases,
  member-Edit, settings-Edit, new_category-Edit, category-Edit, new_item-Edit, item-Edit,
  table-Edit,
}
use goi_mon.Admin.Requests.{
  Request, reset_pin, patch_settings, post_category, patch_category, post_item, patch_item,
  post_image, delete_image, post_table, patch_table as patch_table_request, post_qr, Outside,
  handle, answered,
}

abbrev slug_text : Option Restaurant → String
slug_text none = ""
slug_text (some r) = r.slug

module _ (cfg : Config) (r : Remote) (user : TokenPayload) (o : Office) where
  urls-KeepsDish :
      (stamp : ℕ) (small large : Option String)
      → KeepsDish user.restaurant_id o.db (set_urls stamp small large)
  unfolding set_urls
  urls-KeepsDish stamp small large m = (refl, refl, inl refl)

  replace-Edit :
      (version stamp id : ℕ) (v : List ℕ × List ℕ) (m : MenuItem)
      (x : Result Fault (String × String) × Bucket)
      → find_own_menu_item id user.restaurant_id o.db ≡ some m
      → upload_variants cfg r version m.id v o.bucket ≡ x
      → Edit user.restaurant_id o.db (replace_photo cfg r version stamp v m o).1.db
  unfolding replace_photo discard_images
  replace-Edit version stamp id v m (ok (a, b), s) own e =
      changed_item id (set_urls stamp (some a) (some b)) m own
        (urls-KeepsDish stamp (some a) (some b)) (ground arith)
  replace-Edit version stamp id v m (err x, s) own e = unchanged (ground arith)

  upload-Edit :
      {Image : Type 0} (pil : Pillow Image) (version stamp id : ℕ) (file : Upload)
      (found : Option MenuItem) (variants : Option (List ℕ × List ℕ))
      → find_own_menu_item id user.restaurant_id o.db ≡ found
      → process_menu_image pil (read (max_upload_bytes + 1) file.content) ≡ variants
      → Edit user.restaurant_id o.db
          (upload_menu_item_image pil cfg r version stamp id file user o).1.db
  unfolding upload_menu_item_image get_own_item
  upload-Edit pil version stamp id file none v e d = unchanged (ground arith)
  upload-Edit pil version stamp id file (some m) none e d = unchanged (ground arith)
  upload-Edit pil version stamp id file (some m) (some v) e d =
      either
        (λ (h : (upload_menu_item_image pil cfg r version stamp id file user o).1.db
            ≡ (replace_photo cfg r version stamp v m o).1.db).
          subst (Edit user.restaurant_id o.db) (sym h) (
            replace-Edit version stamp id v m (upload_variants cfg r version m.id v o.bucket) e
              refl))
        (ground arith)

  delete-Edit :
      (stamp id : ℕ) (found : Option MenuItem)
      → find_own_menu_item id user.restaurant_id o.db ≡ found
      → Edit user.restaurant_id o.db (delete_menu_item_image cfg r stamp id user o).1.db
  unfolding delete_menu_item_image get_own_item discard_images
  delete-Edit stamp id none e = unchanged (ground arith)
  delete-Edit stamp id (some m) e =
      changed_item id (set_urls stamp none none) m e (urls-KeepsDish stamp none none) (ground arith)

  new_table-Edit :
      (png : String → List ℕ) (now id : ℕ) (code number : String) (shop : Option Restaurant)
      (x : Result Fault String × Bucket)
      → find restaurant_key user.restaurant_id o.db.restaurants ≡ shop
      → upload_qr_image cfg r id (png (build_qr_url cfg (slug_text shop) code)) o.bucket ≡ x
      → Edit user.restaurant_id o.db (create_table cfg r png now id code number user o).1.db
  unfolding create_table get_restaurant_slug new_table
  new_table-Edit png now id code number none x e d = unchanged (ground arith)
  new_table-Edit png now id code number (some s) (err y, b) e d = unchanged (ground arith)
  new_table-Edit png now id code number (some s) (ok url, b) e d =
      either
        (added_table (set_image (some url) (new_table now id user.restaurant_id number code))
          (unfold set_image new_table in refl))
        (ground arith)

  code-Edit :
      (png : String → List ℕ) (id : ℕ) (code : String) (found : Option Table)
      (shop : Option Restaurant)
      → find_own_table id user.restaurant_id o.db ≡ found
      → find restaurant_key user.restaurant_id o.db.restaurants ≡ shop
      → Edit user.restaurant_id o.db (regenerate_qr cfg r png id code user o).1.db
  unfolding regenerate_qr get_restaurant_slug
  code-Edit png id code none shop e d = unchanged (ground arith)
  code-Edit png id code (some t) none e d = unchanged (ground arith)
  code-Edit png id code (some t) (some s) e d =
      uploaded-Edit (upload_qr_image cfg r t.id (png (build_qr_url cfg s.slug code)) o.bucket) refl
    where
      uploaded-Edit :
          (x : Result Fault String × Bucket)
          → upload_qr_image cfg r t.id (png (build_qr_url cfg s.slug code)) o.bucket ≡ x
          → Edit user.restaurant_id o.db (regenerate_qr cfg r png id code user o).1.db
      uploaded-Edit (err y, b) k = unchanged (ground arith)
      uploaded-Edit (ok url, b) k =
          either
            (changed_table id (set_token code (some url)) t e
              (λ u. unfold set_token in (refl, refl)))
            (ground arith)

-- The answer is the handler's, without its body.
answered-Edit :
    {A : Type 0} (rid : ℕ) (db : Db) (x : Result HttpError A × Office)
    → Edit rid db x.1.db
    → Edit rid db (answered x).1.db
answered-Edit rid db (ok a, o) e = e
answered-Edit rid db (err y, o) e = e

module _ {Image : Type 0} (cfg : Config) (ext : Outside Image) (user : TokenPayload)
    (o : Office) where
  pin-Edit :
      (pin : String) → Edit user.restaurant_id o.db (reset_staff_pin ext.hashpw pin user o).1.db
  pin-Edit pin =
      let members = select (is_staff_of user.restaurant_id) o.db.users in
      either
        (λ (h : (reset_staff_pin ext.hashpw pin user o).1.db
            ≡ (reset_member ext.hashpw pin members o).1.db).
          subst (Edit user.restaurant_id o.db) (sym h)
            (member-Edit user o ext.hashpw pin members refl))
        (pin_cases user o ext.hashpw pin)

  pub handle-Edit : (q : Request) → Edit user.restaurant_id o.db (handle cfg ext user q o).1.db
  unfolding handle
  handle-Edit (reset_pin pin) = answered-Edit _ _ _ (pin-Edit pin)
  handle-Edit (patch_settings stamp body) =
      answered-Edit _ _ _ (settings-Edit user o stamp body _ refl)
  handle-Edit (post_category now id body) =
      answered-Edit _ _ _ (new_category-Edit user o now id body)
  handle-Edit (patch_category id body) = answered-Edit _ _ _ (category-Edit user o id body _ refl)
  handle-Edit (post_item now id body) = answered-Edit _ _ _ (new_item-Edit user o now id body)
  handle-Edit (patch_item stamp id body) =
      answered-Edit _ _ _ (item-Edit user o stamp id body _ refl)
  handle-Edit (post_image version stamp id file) =
      answered-Edit _ _ _
        (upload-Edit cfg ext.remote user o ext.pil version stamp id file _ _ refl refl)
  handle-Edit (delete_image stamp id) =
      answered-Edit _ _ _ (delete-Edit cfg ext.remote user o stamp id _ refl)
  handle-Edit (post_table now id code number) =
      answered-Edit _ _ _
        (new_table-Edit cfg ext.remote user o ext.png now id code number _ _ refl refl)
  handle-Edit (patch_table_request id body) = answered-Edit _ _ _ (table-Edit user o id body _ refl)
  handle-Edit (post_qr id code) =
      answered-Edit _ _ _ (code-Edit cfg ext.remote user o ext.png id code _ _ refl refl)
