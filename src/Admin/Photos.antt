-- ===== src/Admin/Photos.antt =====
-- The photos of a dish: qorder_api/images.py and the image endpoints of
-- qorder_api/api/admin_menu_router.py. Pillow is third-party code.
pub mod Variants
pub mod Replacing
use goi_mon.Prelude.{
  ℕ, ◌+◌, ◌*◌, zero, suc, String, Bool, true, false, ◌||◌, not, Option, none, some, List, [], ◌∷◌,
  ◌==◌, ltb, length, if◌then◌else◌, Exec, ok, err, raise_if, or_raise, pure, ◌>>=◌, ◌>>◌, Result,
  ◌<>◌,
}
use text.Mathlib.Text.{◌==◌ as str_eq}
use goi_mon.Sql.{update}
use goi_mon.Model.{MenuItem, Db}
use goi_mon.Storage.{Config, Remote, Fault, Bucket, upload_file, delete_file, key_from_public_url}
use goi_mon.Http.{HttpError, bad_content_type, too_large, empty_file, invalid_image}
use goi_mon.Auth.{TokenPayload, is_member}
use goi_mon.Admin.{Office, commit, on_bucket}
use goi_mon.Admin.Menu.{get_own_item, write_menu_item}

-- `opened` is `Image.open` with `load` (`none`: any exception), `over_white` the pasting of an RGBA
-- image onto a white canvas, `fit` and `thumbnail` the two Lanczos resizings.
pub record Pillow (Image : Type 0) : Type 0 where
  pub opened : List ℕ → Option Image
  pub exif_transpose : Image → Image
  pub mode : Image → String
  pub convert : String → Image → Image
  pub over_white : Image → Image
  pub fit : ℕ → ℕ → Image → Image
  pub thumbnail : ℕ → ℕ → Image → Image
  pub save_webp : ℕ → Image → List ℕ

unfoldable pub max_upload_bytes : ℕ
max_upload_bytes = 8 * (1024 * 1024)

abbrev pub allowed_content_types : List String
allowed_content_types = "image/jpeg" ∷ "image/png" ∷ "image/webp" ∷ []

abbrev pub image_content_type : String
image_content_type = "image/webp"

abbrev pub image_cache_control : String
image_cache_control = "public, max-age=31536000, immutable"

module _ {Image : Type 0} (pil : Pillow Image) where
  abbrev flatten : Image → Image
  flatten img =
      if is_member (pil.mode img) ("RGBA" ∷ "LA" ∷ "P" ∷ [])
      then pil.over_white (pil.convert "RGBA" img)
      else pil.convert "RGB" img

  abbrev flattened : Option Image → Option Image
  flattened none = none
  flattened (some img) = some (flatten (pil.exif_transpose img))

  unfoldable pub load_flattened : List ℕ → Option Image
  unfolding is_member
  load_flattened raw = flattened (pil.opened raw)

  abbrev variants : Option Image → Option (List ℕ × List ℕ)
  variants none = none
  variants (some base) =
      some
        (pil.save_webp 80 (pil.fit 400 400 base), pil.save_webp 82 (pil.thumbnail 1000 1000 base))

  -- The thumbnail and the large variant, or `none` for an ImageValidationError.
  unfoldable pub process_menu_image : List ℕ → Option (List ℕ × List ℕ)
  unfolding load_flattened
  process_menu_image raw = variants (load_flattened raw)

-- file.read(n)
unfoldable pub read : ℕ → List ℕ → List ℕ
read zero s = []
read (suc n) [] = []
read (suc n) (c ∷ s) = c ∷ read n s

pub record Upload : Type 0 where
  pub content_type : String
  pub content : List ℕ

abbrev is_empty : List ℕ → Bool
is_empty [] = true
is_empty (c ∷ s) = false

-- f"menu/{item.id}/{variant}-{version}.webp"
unfoldable pub photo_key : Config → String → ℕ → ℕ → String
photo_key cfg variant version id =
    "menu/"
    <> (cfg.uuid_text id <> ("/" <> (variant <> ("-" <> (cfg.int_text version <> ".webp")))))

-- Both uploads run to their end; the first failure is raised.
abbrev pub both :
    Result Fault String × Bucket
    → (Bucket → Result Fault String × Bucket)
    → Result Fault (String × String) × Bucket
both (ok a, b) m = let (r, b') = m b in elim r [ ok c ↦ (ok (a, c), b') | err e ↦ (err e, b') ]
both (err e, b) m = (err e, (m b).1)

unfoldable pub upload_variants :
    Config → Remote → ℕ → ℕ → List ℕ × List ℕ → Exec Bucket Fault (String × String)
upload_variants cfg r version id (thumb, large) b =
    both
      (upload_file cfg r (photo_key cfg "thumb" version id) thumb image_content_type
        (some image_cache_control) b)
      (upload_file cfg r (photo_key cfg "large" version id) large image_content_type
        (some image_cache_control))

-- Whatever the deletion raises is logged and swallowed.
unfoldable pub discard_key : Remote → Option String → Bucket → Bucket
unfolding delete_file
discard_key r none b = b
discard_key r (some key) b = (delete_file r key b).1

unfoldable pub discard_url : Config → Remote → Option String → Bucket → Bucket
unfolding discard_key key_from_public_url
discard_url cfg r none b = b
discard_url cfg r (some url) b = discard_key r (key_from_public_url cfg url) b

-- `_discard_images` on the two previous URLs. An empty URL is skipped, and has no key either.
unfoldable pub discard_images :
    Config → Remote → Option String × Option String → Office → Result HttpError (Unit {0}) × Office
unfolding discard_url
discard_images cfg r (small, large) o =
    (ok tt, record o { bucket = discard_url cfg r large (discard_url cfg r small o.bucket) })

unfoldable pub set_urls : ℕ → Option String → Option String → MenuItem → MenuItem
set_urls stamp small large m = record m {
  image_url = small;
  image_large_url = large;
  updated_at = stamp;
}

-- The steps from the decoded photo on: `version` is `int(time.time())`.
unfoldable pub replace_photo :
    Config → Remote → ℕ → ℕ → List ℕ × List ℕ → MenuItem → Exec Office HttpError MenuItem
replace_photo cfg r version stamp variants item = do
  (small, large) ← on_bucket (upload_variants cfg r version item.id variants)
  let row = set_urls stamp (some small) (some large)
  commit false (write_menu_item row item.id)
  discard_images cfg r (item.image_url, item.image_large_url)
  pure (row item)

module _ {Image : Type 0} (pil : Pillow Image) (cfg : Config) (r : Remote) where
  unfoldable pub upload_menu_item_image :
      ℕ → ℕ → ℕ → Upload → TokenPayload → Exec Office HttpError MenuItem
  upload_menu_item_image version stamp item_id file user = do
    item ← get_own_item item_id user.restaurant_id
    raise_if (not (is_member file.content_type allowed_content_types)) bad_content_type
    let raw = read (max_upload_bytes + 1) file.content
    raise_if (ltb max_upload_bytes (length raw)) too_large
    raise_if (is_empty raw) empty_file
    variants ← or_raise (process_menu_image pil raw) invalid_image
    replace_photo cfg r version stamp variants item

unfoldable pub delete_menu_item_image :
    Config → Remote → ℕ → ℕ → TokenPayload → Exec Office HttpError MenuItem
delete_menu_item_image cfg r stamp item_id user = do
  item ← get_own_item item_id user.restaurant_id
  commit false (write_menu_item (set_urls stamp none none) item.id)
  discard_images cfg r (item.image_url, item.image_large_url)
  pure (set_urls stamp none none item)
