-- ===== src/Admin/Requests.antt =====
-- The requests of the admin routers that write, as one type, and their handlers.
pub mod Atomic
pub mod Edits
pub mod Outcomes
pub mod Isolation
pub mod Categories
pub mod Visits
pub mod Access
use goi_mon.Prelude.{ℕ, String, Option, List, Exec, Result, ok, err, ◌>>=◌}
use goi_mon.Storage.{Config, Remote}
use goi_mon.Http.{HttpError}
use goi_mon.Auth.{Security, TokenPayload}
use goi_mon.Admin.{Office, admin_user}
use goi_mon.Admin.Settings.{UpdateSettings, reset_staff_pin, update_settings}
use goi_mon.Admin.Menu.{
  CategoryCreate, CategoryUpdate, ItemCreate, ItemUpdate, create_menu_category,
  update_menu_category, create_menu_item, update_menu_item,
}
use goi_mon.Admin.Photos.{Pillow, Upload, upload_menu_item_image, delete_menu_item_image}
use goi_mon.Admin.Tables.{TableUpdate, create_table, update_table, regenerate_qr}

-- The body and path of a request, with the time, the new id or the random token of its handling.
pub data Request : Type 0 where
  reset_pin : String → Request
  patch_settings : ℕ → UpdateSettings → Request
  post_category : ℕ → ℕ → CategoryCreate → Request
  patch_category : ℕ → CategoryUpdate → Request
  post_item : ℕ → ℕ → ItemCreate → Request
  patch_item : ℕ → ℕ → ItemUpdate → Request
  post_image : ℕ → ℕ → ℕ → Upload → Request
  delete_image : ℕ → ℕ → Request
  post_table : ℕ → ℕ → String → String → Request
  patch_table : ℕ → TableUpdate → Request
  post_qr : ℕ → String → Request

-- What the third-party libraries do.
pub record Outside (Image : Type 0) : Type 0 where
  pub hashpw : String → String
  pub pil : Pillow Image
  pub png : String → List ℕ
  pub remote : Remote

-- The answer without its body.
abbrev pub answered :
    {A : Type 0} → Result HttpError A × Office → Result HttpError (Unit {0}) × Office
answered (ok a, o) = (ok tt, o)
answered (err e, o) = (err e, o)

module _ {Image : Type 0} (cfg : Config) (ext : Outside Image) (user : TokenPayload) where
  unfoldable pub handle : Request → Exec Office HttpError (Unit {0})
  handle (reset_pin pin) o = answered (reset_staff_pin ext.hashpw pin user o)
  handle (patch_settings stamp body) o = answered (update_settings stamp body user o)
  handle (post_category now id body) o = answered (create_menu_category now id body user o)
  handle (patch_category id body) o = answered (update_menu_category id body user o)
  handle (post_item now id body) o = answered (create_menu_item now id body user o)
  handle (patch_item stamp id body) o = answered (update_menu_item stamp id body user o)
  handle (post_image version stamp id file) o =
      answered (upload_menu_item_image ext.pil cfg ext.remote version stamp id file user o)
  handle (delete_image stamp id) o =
      answered (delete_menu_item_image cfg ext.remote stamp id user o)
  handle (post_table now id code number) o =
      answered (create_table cfg ext.remote ext.png now id code number user o)
  handle (patch_table id body) o = answered (update_table id body user o)
  handle (post_qr id code) o = answered (regenerate_qr cfg ext.remote ext.png id code user o)

-- A request as it arrives: the guard of the router comes first.
module _ {Image : Type 0} (cfg : Config) (ext : Outside Image) (sec : Security) where
  unfoldable pub serve : Option String → Request → Exec Office HttpError (Unit {0})
  unfolding admin_user
  serve credentials q = do user ← admin_user sec credentials; handle cfg ext user q
