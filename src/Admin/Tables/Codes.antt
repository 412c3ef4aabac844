-- ===== src/Admin/Tables/Codes.antt =====
-- QR codes of tables: what `regenerate_qr` and `create_table` make of the codes that guests scan.
use goi_mon.Prelude.{
  ℕ, String, Bool, true, false, ◌&&◌, Option, none, some, List, [], ◌∷◌, ◌==◌, ◌≡◌, refl, ap, sym,
  ◌∙◌, subst, arith, ok, err, Result, if◌then◌else◌, eq_of_==,
}
use text.Mathlib.Text.{◌==◌ as str_eq}
use text.Mathlib.TextPositions.{eq_refl}
use goi_mon.Sql.{select, update, first}
use goi_mon.Sql.Keyed.{find, IsKeyed, first-select}
use goi_mon.Sql.Owned.{own-find}
use goi_mon.Model.{Table, Restaurant, Db}
use goi_mon.Storage.{Config, Remote, Bucket, StoredObject, lookup_key}
use goi_mon.Storage.Objects.{IsUploaded, object_of, upload_file-IsUploaded}
use goi_mon.Auth.{TokenPayload}
use goi_mon.Http.{find_table, find_restaurant, resolve, bad_qr, HttpError}
use goi_mon.Realtime.{World}
use goi_mon.Admin.{Office}
use goi_mon.Admin.Tables.{
  find_own_table, get_restaurant_slug, restaurant_key, build_qr_url, upload_qr_image, qr_key,
  clashes, set_token, write_table, regenerate_qr,
}

abbrev pub table_key : Table → ℕ
table_key t = t.id

-- A code that no table other than t has is gone once t has another one.
old_code-gone :
    (t : Table) (new : String) (url : Option String) (us : List Table)
    → clashes t us ≡ false
    → str_eq new t.qr_token ≡ false
    → first (
        select
          (λ u. str_eq u.qr_token t.qr_token && u.is_active)
          (update (λ u. u.id == t.id) (set_token new url) us))
      ≡ none
unfolding first select update clashes set_token
old_code-gone t new url [] free other = refl
old_code-gone t new url (u ∷ us) free other = ground (arith, old_code-gone t new url us)

new_code-found :
    (t : Table) (new : String) (url : Option String) (us : List Table)
    → clashes (set_token new url t) us ≡ false
    → find table_key t.id us ≡ some t
    → t.is_active ≡ true
    → first (
        select
          (λ u. str_eq u.qr_token new && u.is_active)
          (update (λ u. u.id == t.id) (set_token new url) us))
      ≡ some (set_token new url t)
unfolding first select update clashes set_token find
new_code-found t new url [] free here active = ground arith
new_code-found t new url (u ∷ us) free here active =
    ground (arith, eq_refl new, new_code-found t new url us)

-- The object that a QR code of a table is stored as.
abbrev pub qr_object : List ℕ → StoredObject
qr_object png_bytes = object_of png_bytes "image/png" none

-- The picture of the new code is what is stored for the table.
picture-stored :
    (cfg : Config) (r : Remote) (id : ℕ) (bytes : List ℕ) (url : String) (b b' : Bucket)
    → upload_qr_image cfg r id bytes b ≡ (ok url, b')
    → lookup_key (qr_key cfg id) b'.objects ≡ some (qr_object bytes)
picture-stored cfg r id bytes url b b' uploaded =
    let key = qr_key cfg id in
    let done : IsUploaded cfg key (qr_object bytes) b (ok url, b') =
      subst (IsUploaded cfg key (qr_object bytes) b) uploaded
        (unfold upload_qr_image in upload_file-IsUploaded cfg r key bytes "image/png" none b) in
    done.1 key
    ∙ ap (λ (t : Bool). if t then some (qr_object bytes) else lookup_key key b.objects)
        (eq_refl key)

module _ (cfg : Config) (r : Remote) (png : String → List ℕ) (user : TokenPayload) (o : Office)
    (t : Table) (shop : Restaurant) where
  regenerated :
      (table_id : ℕ) (new url : String) (b : Bucket)
      → find_own_table table_id user.restaurant_id o.db ≡ some t
      → find restaurant_key user.restaurant_id o.db.restaurants ≡ some shop
      → upload_qr_image cfg r t.id (png (build_qr_url cfg shop.slug new)) o.bucket ≡ (ok url, b)
      → clashes (set_token new (some url) t) o.db.tables ≡ false
      → regenerate_qr cfg r png table_id new user o ≡ (
        ok (set_token new (some url) t),
        record { db = write_table (set_token new (some url)) t.id o.db; bucket = b },
      )
  unfolding regenerate_qr get_restaurant_slug
  regenerated table_id new url b found there uploaded free = ground arith

-- A scan of a code: the table it leads to, or 404.
scan-gone :
    (code : String) (w : World) → find_table code w.db ≡ none → (resolve code w).0 ≡ err bad_qr
unfolding resolve
scan-gone code w gone = ground arith

scan-found :
    (code : String) (w : World) (t : Table) (shop : Restaurant)
    → find_table code w.db ≡ some t
    → find_restaurant t.restaurant_id w.db ≡ some shop
    → (resolve code w).0 ≡ ok (t, shop)
unfolding resolve
scan-found code w t shop there open_shop = ground arith

active_restaurant :
    (rid : ℕ) (db : Db) (shop : Restaurant)
    → IsKeyed restaurant_key db.restaurants
    → find restaurant_key rid db.restaurants ≡ some shop
    → shop.is_active ≡ true
    → find_restaurant rid db ≡ some shop
unfolding find_restaurant
active_restaurant rid db shop keyed there active =
    first-select restaurant_key rid (λ r. r.is_active) db.restaurants keyed
    ∙ rw there (rw active refl)

module _ (cfg : Config) (r : Remote) (png : String → List ℕ) (user : TokenPayload) (o : Office)
    (t : Table) (shop : Restaurant) (w : World) where
  -- On a database with unique ids of tables and restaurants: when the code of an own, active
  -- table of an active restaurant, whose code no other table and whose number no other table of
  -- the restaurant has, is replaced by a new one that no table has, and the storage takes the
  -- picture, then in the resulting database a scan of the old code is answered with 404 and a
  -- scan of the new one leads to the table with its restaurant; the picture stored for the table
  -- is that of the URL with the new code; and the database is otherwise that of before, but for
  -- its tables.
  pub regenerate_qr_moves :
      (table_id : ℕ) (new url : String) (b : Bucket)
      → IsKeyed table_key o.db.tables
      → IsKeyed restaurant_key o.db.restaurants
      → find_own_table table_id user.restaurant_id o.db ≡ some t
      → find restaurant_key user.restaurant_id o.db.restaurants ≡ some shop
      → t.is_active ≡ true
      → shop.is_active ≡ true
      → upload_qr_image cfg r t.id (png (build_qr_url cfg shop.slug new)) o.bucket ≡ (ok url, b)
      → clashes t o.db.tables ≡ false
      → clashes (set_token new (some url) t) o.db.tables ≡ false
      → str_eq new t.qr_token ≡ false
      → w.db ≡ (regenerate_qr cfg r png table_id new user o).1.db
      → ((resolve t.qr_token w).0 ≡ err bad_qr)
        × ((resolve new w).0 ≡ ok (set_token new (some url) t, shop))
        × (lookup_key
              (qr_key cfg t.id)
              (regenerate_qr cfg r png table_id new user o).1.bucket.objects
            ≡ some (qr_object (png (build_qr_url cfg shop.slug new))))
        × (w.db ≡ record o.db { tables = w.db.tables })
  unfolding find_restaurant
  regenerate_qr_moves table_id new url b keyed shops found there active open_shop uploaded own free
        other same =
      let done = regenerated cfg r png user o t shop table_id new url b found there uploaded free in
      let db' = write_table (set_token new (some url)) t.id o.db in
      let now : w.db ≡ db' = same ∙ ap (λ (x : Result HttpError Table × Office). x.1.db) done in
      let (here, id, mine) =
        own-find table_key table_id (λ u. u.restaurant_id == user.restaurant_id) o.db.tables t keyed
          (unfold find_own_table in found) in
      (
        scan-gone t.qr_token w (
            ap (find_table t.qr_token) now
            ∙ (unfold find_table in old_code-gone t new (some url) o.db.tables own other)),
        scan-found new w (set_token new (some url) t) shop
            (ap (find_table new) now
              ∙ (unfold find_table in
                  new_code-found t new (some url) o.db.tables free
                    (ap (λ (i : ℕ). find table_key i o.db.tables) id ∙ here) active))
            (unfold set_token in
              rw (eq_of_== t.restaurant_id user.restaurant_id mine, now)
                (active_restaurant user.restaurant_id o.db shop shops there open_shop)),
        ap
              (λ (x : Result HttpError Table × Office).
                lookup_key (qr_key cfg t.id) x.1.bucket.objects)
              done
            ∙ picture-stored cfg r t.id (png (build_qr_url cfg shop.slug new)) url o.bucket b
                uploaded,
        now ∙ sym (ap (λ (d : Db). record o.db { tables = d.tables }) now),
      )
