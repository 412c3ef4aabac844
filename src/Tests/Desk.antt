-- ===== src/Tests/Desk.antt =====
-- The owner of the small restaurant, its object storage and the libraries that it runs with.
use goi_mon.Prelude.{
  ℕ, ◌≢◌, true, false, none, some, String, List, [], ◌∷◌, if◌then◌else◌, arith, ◌==◌,
}
use goi_mon.Auth.{TokenPayload}
use goi_mon.Storage.{Config, Remote, Bucket}
use goi_mon.Admin.{Office, unset, to}
use goi_mon.Admin.Menu.{ItemUpdate}
use goi_mon.Admin.Photos.{Pillow}
use goi_mon.Admin.Requests.{Outside}
use goi_mon.Admin.Requests.Isolation.{HasKeys}
use goi_mon.Tests.Data.{lunch, dish_of}

abbrev pub owner : TokenPayload
owner = record { sub = 8; restaurant_id = 1; role = "admin" }

-- Ids and numbers of these tests have one digit.
abbrev pub digit_text : ℕ → String
digit_text n = if n == 3 then "3" else if n == 5 then "5" else "9"

abbrev pub cfg : Config
cfg = record {
  s3_bucket = "qr";
  s3_public_url = "http://s3/";
  base_url = "http://q";
  uuid_text = digit_text;
  int_text = digit_text;
}

abbrev pub willing : Remote
willing = record {
  head_bucket = none;
  create_bucket = none;
  put_bucket_policy = none;
  put_object = λ k. none;
  delete_object = λ k. none;
}

abbrev pub shelf : Bucket
shelf = record { ensured = true; created = true; public_read = true; objects = [] }

abbrev pub office : Office
office = record { db = lunch; bucket = shelf }

abbrev pub lens : Pillow (List ℕ)
lens = record {
  opened = λ bytes. some bytes;
  exif_transpose = λ x. x;
  mode = λ x. "RGB";
  convert = λ m x. x;
  over_white = λ x. x;
  fit = λ w h x. x;
  thumbnail = λ w h x. x;
  save_webp = λ q x. x;
}

abbrev pub outside : Outside (List ℕ)
outside = record { hashpw = λ pin. pin; pil = lens; png = λ url. 1 ∷ []; remote = willing }

abbrev pub hide : ItemUpdate
hide = record {
  name = unset;
  description = unset;
  price = to 7000;
  prep_time_minutes = unset;
  category_id = unset;
  is_available = unset;
  is_active = to false;
  image_url = unset;
  is_featured = unset;
  sort_order = unset;
}

dishes_differ : (dish_of 21 6000 false).id ≢ (dish_of 20 5000 true).id
dishes_differ = omega arith

pub lunch-HasKeys : HasKeys lunch
lunch-HasKeys = record {
  users = (tt, tt);
  settings = (tt, tt);
  categories = tt;
  dishes = ((dishes_differ, tt), (tt, tt));
  tables = (tt, tt);
}
