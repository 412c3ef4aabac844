-- ===== src/Admin/Tables.antt =====
-- qorder_api/api/admin_table_router.py with qorder_api/schemas/table.py: tables and their QR codes.
-- The QR library is third-party code: `png` renders a text.
pub mod Codes
use goi_mon.Prelude.{
  ℕ, String, Bool, true, false, ◌&&◌, ◌||◌, not, Option, none, some, List, [], ◌∷◌, ◌++◌, ◌==◌,
  Exec, ok, err, raise_if, or_raise, pure, ◌>>=◌, ◌>>◌, Result, ◌<>◌,
}
use text.Mathlib.Text.{◌==◌ as str_eq}
use goi_mon.Sql.{select, update, first}
use goi_mon.Sql.Keyed.{find}
use goi_mon.Model.{Table, Restaurant, Db}
use goi_mon.Storage.{Config, Remote, Fault, Bucket, upload_file}
use goi_mon.Http.{HttpError, invalid_body, unknown_table, restaurant_not_found, integrity_error}
use goi_mon.Auth.{TokenPayload}
use goi_mon.Admin.{
  Office, Change, assign, is_null, every_value, has_length, gets_db, commit, on_bucket,
}

abbrev pub slug_of : Option Restaurant → Option String
slug_of none = none
slug_of (some r) = some r.slug

abbrev pub restaurant_key : Restaurant → ℕ
restaurant_key r = r.id

unfoldable pub get_restaurant_slug : ℕ → Exec Office HttpError String
get_restaurant_slug restaurant_id = do
  found ← gets_db (λ db. slug_of (find restaurant_key restaurant_id db.restaurants))
  or_raise found restaurant_not_found

-- f"{base_url}/{slug}/t/{qr_token}"
unfoldable pub build_qr_url : Config → String → String → String
build_qr_url cfg slug qr_token = cfg.base_url <> ("/" <> (slug <> ("/t/" <> qr_token)))

-- f"qr/{table_id}.png"
unfoldable pub qr_key : Config → ℕ → String
qr_key cfg table_id = "qr/" <> (cfg.uuid_text table_id <> ".png")

unfoldable pub upload_qr_image : Config → Remote → ℕ → List ℕ → Exec Bucket Fault String
unfolding upload_file qr_key
upload_qr_image cfg r table_id png_bytes =
    upload_file cfg r (qr_key cfg table_id) png_bytes "image/png" none

-- The unique constraints of the table, against the rows with another id.
unfoldable pub clashes : Table → List Table → Bool
clashes t [] = false
clashes t (u ∷ us) =
    (not (u.id == t.id)
      && (str_eq u.qr_token t.qr_token
          || (u.restaurant_id == t.restaurant_id && str_eq u.table_number t.table_number)))
    || clashes t us

unfoldable pub new_table : ℕ → ℕ → ℕ → String → String → Table
new_table now id restaurant_id table_number qr_token = record {
  id = id;
  restaurant_id = restaurant_id;
  table_number = table_number;
  qr_token = qr_token;
  qr_image_url = none;
  is_active = true;
  created_at = now;
}

unfoldable pub set_image : Option String → Table → Table
set_image url t = record t { qr_image_url = url }

unfoldable pub set_token : String → Option String → Table → Table
set_token qr_token url t = record t { qr_token = qr_token; qr_image_url = url }

abbrev pub insert_table : Table → Db → Db
insert_table t db = record db { tables = db.tables ++ t ∷ [] }

abbrev pub write_table : (Table → Table) → ℕ → Db → Db
write_table f id db = record db { tables = update (λ t. t.id == id) f db.tables }

unfoldable pub find_own_table : ℕ → ℕ → Db → Option Table
unfolding select first
find_own_table id restaurant_id db =
    first (select (λ t. t.id == id && t.restaurant_id == restaurant_id) db.tables)

module _ (cfg : Config) (r : Remote) (png : String → List ℕ) where
  -- The flush inserts the row, so it meets the unique constraints before the upload; what it
  -- inserted is rolled back if the upload fails. `qr_token` is what `secrets` gave, `id` the new id.
  unfoldable pub create_table : ℕ → ℕ → String → String → TokenPayload → Exec Office HttpError Table
  create_table now id qr_token table_number user = do
    raise_if (not (has_length 1 50 table_number)) invalid_body
    slug ← get_restaurant_slug user.restaurant_id
    let table = new_table now id user.restaurant_id table_number qr_token
    refused ← gets_db (λ db. clashes table db.tables)
    raise_if refused integrity_error
    url ← on_bucket (upload_qr_image cfg r table.id (png (build_qr_url cfg slug qr_token)))
    commit false (insert_table (set_image (some url) table))
    pure (set_image (some url) table)

  -- The upload comes before the commit.
  unfoldable pub regenerate_qr : ℕ → String → TokenPayload → Exec Office HttpError Table
  regenerate_qr table_id new_token user = do
    found ← gets_db (find_own_table table_id user.restaurant_id)
    table ← or_raise found unknown_table
    slug ← get_restaurant_slug user.restaurant_id
    url ← on_bucket (upload_qr_image cfg r table.id (png (build_qr_url cfg slug new_token)))
    refused ← gets_db (λ db. clashes (set_token new_token (some url) table) db.tables)
    commit refused (write_table (set_token new_token (some url)) table.id)
    pure (set_token new_token (some url) table)

  -- The bytes of the PNG.
  unfoldable pub get_qr_image : ℕ → TokenPayload → Exec Office HttpError (List ℕ)
  get_qr_image table_id user = do
    found ← gets_db (find_own_table table_id user.restaurant_id)
    table ← or_raise found unknown_table
    slug ← get_restaurant_slug user.restaurant_id
    pure (png (build_qr_url cfg slug table.qr_token))

-- ORDER BY table_number, in the collation of the database, which is a parameter.
unfoldable pub list_tables :
    (List Table → List Table) → TokenPayload → Exec Office HttpError (List Table)
unfolding select
list_tables by_number user =
    gets_db λ db. by_number (select (λ t. t.restaurant_id == user.restaurant_id) db.tables)

-- TableUpdate
pub record TableUpdate : Type 0 where
  pub table_number : Change String
  pub is_active : Change Bool

unfoldable pub patch_table : TableUpdate → Table → Table
patch_table body t = record t {
  table_number = assign body.table_number t.table_number;
  is_active = assign body.is_active t.is_active;
}

-- What the commit refuses: a null, or the number of another table of the restaurant.
unfoldable pub refuses_table : TableUpdate → Table → List Table → Bool
unfolding clashes patch_table
refuses_table body t tables =
    is_null body.table_number || (is_null body.is_active || clashes (patch_table body t) tables)

unfoldable pub update_table : ℕ → TableUpdate → TokenPayload → Exec Office HttpError Table
update_table table_id body user = do
  raise_if (not (every_value (has_length 1 50) body.table_number)) invalid_body
  found ← gets_db (find_own_table table_id user.restaurant_id)
  table ← or_raise found unknown_table
  refused ← gets_db (λ db. refuses_table body table db.tables)
  commit refused (write_table (patch_table body) table.id)
  pure (patch_table body table)
