-- ===== src/Tests/Pictures.antt =====
-- Pictures at the desk: the code of the table and the photo of a dish.
use goi_mon.Prelude.{ℕ, ◌≢◌, ◌≡◌, refl, true, none, some, String, ok, err, [], ◌∷◌}
use goi_mon.Sql.Keyed.{find}
use goi_mon.Model.{MenuItem}
use goi_mon.Http.{bad_qr, resolve}
use goi_mon.Storage.{
  lookup_key, get_public_url, key_from_public_url, rstrip, strip_prefix, upload_file, ensure_bucket,
  put_object,
}
use goi_mon.Admin.Photos.{photo_key, replace_photo, set_urls}
use goi_mon.Admin.Photos.Replacing.{replace_photo_same_second, replace_photo_stores}
use goi_mon.Admin.Menu.Patches.{dish_key}
use goi_mon.Admin.Photos.Variants.{variant, key_of}
use goi_mon.Admin.Tables.{
  regenerate_qr, find_own_table, set_token, qr_key, upload_qr_image, clashes,
}
use goi_mon.Admin.Tables.Codes.{regenerate_qr_moves, qr_object}
use goi_mon.Tests.Data.{lunch, pho, table_three, dish_of, world}
use goi_mon.Tests.Desk.{owner, cfg, willing, shelf, office, lunch-HasKeys}

regenerate_qr_moves_example :
    let o = (regenerate_qr cfg willing (λ url. 1 ∷ []) 3 "new" owner office).1 in
    ((resolve "qr3" (world o.db)).0 ≡ err bad_qr)
    × ((resolve "new" (world o.db)).0
        ≡ ok (set_token "new" (some (get_public_url cfg (qr_key cfg 3))) table_three, pho))
    × (lookup_key (qr_key cfg 3) o.bucket.objects ≡ some (qr_object (1 ∷ [])))
    × (o.db ≡ record lunch { tables = o.db.tables })
unfolding find_own_table find upload_qr_image clashes set_token upload_file ensure_bucket put_object
regenerate_qr_moves_example =
    regenerate_qr_moves cfg willing (λ url. 1 ∷ []) owner office table_three pho
      (world (regenerate_qr cfg willing (λ url. 1 ∷ []) 3 "new" owner office).1.db) 3 "new"
      (get_public_url cfg (qr_key cfg 3)) (upload_qr_image cfg willing 3 (1 ∷ []) shelf).1
      lunch-HasKeys.tables (tt, tt) refl refl refl refl refl refl refl refl refl

abbrev plain : MenuItem
plain = dish_of 20 5000 true

abbrev photographed : MenuItem
photographed = record plain {
  image_url = some (get_public_url cfg (photo_key cfg "thumb" 5 20));
  image_large_url = some (get_public_url cfg (photo_key cfg "large" 5 20));
}

replace_photo_same_second_example :
    let (q, o') = replace_photo cfg willing 5 9 (1 ∷ [], 2 ∷ []) photographed office in
    (q ≡ ok (set_urls 9 photographed.image_url photographed.image_large_url photographed))
    × (key_of cfg willing photographed.image_url ≡ some (photo_key cfg "thumb" 5 20))
    × (lookup_key (photo_key cfg "thumb" 5 20) o'.bucket.objects ≡ none)
    × (lookup_key (photo_key cfg "large" 5 20) o'.bucket.objects ≡ none)
unfolding rstrip strip_prefix key_from_public_url set_urls
replace_photo_same_second_example =
    replace_photo_same_second cfg willing 5 9 (1 ∷ []) (2 ∷ []) photographed office refl (λ k. refl)
      refl refl refl refl
      ((refl, (refl, (refl, (refl, (refl, (refl, (refl, (refl, (refl, tt))))))))))

replace_photo_stores_example :
    let (q, o') = replace_photo cfg willing 5 9 (1 ∷ [], 2 ∷ []) plain office in
    let new = record photographed { updated_at = 9 } in
    (q ≡ ok new)
    × (find dish_key 20 o'.db.menu_items ≡ some new)
    × ((j : ℕ) → j ≢ 20 → find dish_key j o'.db.menu_items ≡ find dish_key j lunch.menu_items)
    × (lookup_key (photo_key cfg "thumb" 5 20) o'.bucket.objects ≡ some (variant (1 ∷ [])))
    × (lookup_key (photo_key cfg "large" 5 20) o'.bucket.objects ≡ some (variant (2 ∷ [])))
    × ((k : String)
        → key_of cfg willing plain.image_url ≡ some k
        → willing.delete_object k ≡ none
        → lookup_key k o'.bucket.objects ≡ none)
unfolding find
replace_photo_stores_example =
    replace_photo_stores cfg willing 5 9 (1 ∷ []) (2 ∷ []) plain office refl (λ k. refl)
      lunch-HasKeys.dishes refl (λ k e. absurd (cc)) (λ k e. absurd (cc))
