-- ===== src/Admin/Photos/Replacing.antt =====
-- What is stored once a photo is replaced.
use goi_mon.Prelude.{
  ℕ, String, true, false, none, some, List, ◌≡◌, ap, ◌∙◌, arith, Result, ok, refl, ◌≢◌, ◌==◌,
  ==_refl, eq_of_==,
}
use text.Mathlib.Text.{◌==◌ as str_eq}
use goi_mon.Sql.Keyed.{IsKeyed, find, find-update, find-update_other}
use goi_mon.Model.{MenuItem}
use goi_mon.Storage.{
  Config, Remote, Bucket, lookup_key, get_public_url, key_from_public_url, rstrip, marker_of,
}
use goi_mon.Storage.Keys.{IsClear, key_from_public_url-get_public_url}
use goi_mon.Http.{HttpError}
use goi_mon.Admin.{Office}
use goi_mon.Admin.Menu.{write_menu_item}
use goi_mon.Admin.Menu.Patches.{dish_key}
use goi_mon.Admin.Photos.{photo_key, discard_url, discard_images, set_urls, replace_photo}
use goi_mon.Admin.Photos.Variants.{
  variant, key_of, spared, stays_gone, discarded, uploaded, filled, filled_small, filled_large,
}

-- The row and the bucket after a replacement.
module _ (cfg : Config) (r : Remote) (version stamp : ℕ) (thumb large : List ℕ) (m : MenuItem)
    (o : Office) (ready : o.bucket.ensured ≡ true)
    (takes : (k : String) → r.put_object k ≡ none) where
  abbrev k₁ : String
  k₁ = photo_key cfg "thumb" version m.id

  abbrev k₂ : String
  k₂ = photo_key cfg "large" version m.id

  abbrev full : Bucket
  full = filled cfg r version m.id thumb large o.bucket ready

  abbrev row : MenuItem → MenuItem
  row = set_urls stamp (some (get_public_url cfg k₁)) (some (get_public_url cfg k₂))

  replaced : replace_photo cfg r version stamp (thumb, large) m o ≡ (
    ok (row m),
    record {
      db = write_menu_item row m.id o.db;
      bucket = discard_url cfg r m.image_large_url (discard_url cfg r m.image_url full);
    },
  )
  unfolding replace_photo discard_images
  replaced =
      let up = uploaded cfg r version m.id thumb large o.bucket ready (takes k₁) (takes k₂) in
      ground arith

  -- The key behind a URL that was handed out for a photo.
  named :
      (variant_name : String)
      → IsClear (marker_of cfg) (rstrip cfg.s3_public_url)
      → key_from_public_url cfg (get_public_url cfg (photo_key cfg variant_name version m.id))
        ≡ some (photo_key cfg variant_name version m.id)
  named variant_name clear =
      key_from_public_url-get_public_url cfg (photo_key cfg variant_name version m.id)
        (unfold photo_key in (cc)) clear

  -- The row that the UPDATE of the dish leaves.
  stored_row :
      IsKeyed dish_key o.db.menu_items
      → find dish_key m.id o.db.menu_items ≡ some m
      → find dish_key m.id (write_menu_item row m.id o.db).menu_items ≡ some (row m)
  unfolding set_urls
  stored_row keyed found =
      rw (find-update dish_key m.id (λ x. x.id == m.id) row o.db.menu_items (λ x. refl), found)
        (ground (arith, ==_refl m.id))

  -- If the bucket is known to be ready, the storage takes every upload, the dish is in the
  -- database and the ids of dishes are unique, then the replacement of its photo, none of whose
  -- old URLs stands for a new key, succeeds: the dish is stored and returned with the public URL
  -- of the thumbnail's key as its image and that of the large variant's key as its large image,
  -- the time of the update apart as before, and no other dish changes; both variants are stored
  -- under their keys, and an old thumbnail, whose deletion the storage accepts, is gone.
  pub replace_photo_stores :
      IsKeyed dish_key o.db.menu_items
      → find dish_key m.id o.db.menu_items ≡ some m
      → ((k : String)
          → key_of cfg r m.image_url ≡ some k
          → (str_eq k k₁ ≡ false) × (str_eq k k₂ ≡ false))
      → ((k : String)
          → key_of cfg r m.image_large_url ≡ some k
          → (str_eq k k₁ ≡ false) × (str_eq k k₂ ≡ false))
      → let (q, o') = replace_photo cfg r version stamp (thumb, large) m o in
        let small_url = some (get_public_url cfg k₁) in
        let large_url = some (get_public_url cfg k₂) in
        let new = record m {
          image_url = small_url;
          image_large_url = large_url;
          updated_at = stamp;
        } in
        (q ≡ ok new)
        × (find dish_key m.id o'.db.menu_items ≡ some new)
        × ((j : ℕ) → j ≢ m.id → find dish_key j o'.db.menu_items ≡ find dish_key j o.db.menu_items)
        × (lookup_key k₁ o'.bucket.objects ≡ some (variant thumb))
        × (lookup_key k₂ o'.bucket.objects ≡ some (variant large))
        × ((k : String)
            → key_of cfg r m.image_url ≡ some k
            → r.delete_object k ≡ none
            → lookup_key k o'.bucket.objects ≡ none)
  unfolding set_urls
  replace_photo_stores keyed found small_other large_other =
      let b₁ = discard_url cfg r m.image_url full in
      let at = ap (λ (x : Result HttpError MenuItem × Office). x.1.bucket) replaced in
      let see = λ (k : String). ap (λ (b : Bucket). lookup_key k b.objects) at in
      let dishes = λ (j : ℕ).
        ap (λ (x : Result HttpError MenuItem × Office). find dish_key j x.1.db.menu_items)
          replaced in
      (
        ap (λ (x : Result HttpError MenuItem × Office). x.0) replaced,
        dishes m.id ∙ stored_row keyed found,
        (λ j ne.
            dishes j
            ∙ find-update_other dish_key m.id j (λ x. x.id == m.id) row o.db.menu_items (λ x. refl)
                (λ x h. eq_of_== x.id m.id h) ne),
        see k₁
            ∙ spared cfg r m.image_large_url k₁ b₁ (λ k e. (large_other k e).0)
            ∙ spared cfg r m.image_url k₁ full (λ k e. (small_other k e).0)
            ∙ filled_small cfg r version m.id thumb large o.bucket ready,
        see k₂
            ∙ spared cfg r m.image_large_url k₂ b₁ (λ k e. (large_other k e).1)
            ∙ spared cfg r m.image_url k₂ full (λ k e. (small_other k e).1)
            ∙ filled_large cfg r version m.id thumb large o.bucket ready,
        λ k own accepted.
            see k
            ∙ stays_gone cfg r m.image_large_url k b₁
                (discarded cfg r m.image_url k full own accepted),
      )

  -- If the bucket is known to be ready, the storage takes every upload and the deletion of both
  -- keys, the base URL has no marker beginning in it, and the old photo was uploaded in the same
  -- second, so that its URLs are those of the new keys, then the replacement succeeds and the
  -- row's URL stands for the new key, but neither variant is stored any more.
  pub replace_photo_same_second :
      m.image_url ≡ some (get_public_url cfg k₁)
      → m.image_large_url ≡ some (get_public_url cfg k₂)
      → r.delete_object k₁ ≡ none
      → r.delete_object k₂ ≡ none
      → IsClear (marker_of cfg) (rstrip cfg.s3_public_url)
      → let (q, o') = replace_photo cfg r version stamp (thumb, large) m o in
        (q ≡ ok (row m))
        × (key_of cfg r (row m).image_url ≡ some k₁)
        × (lookup_key k₁ o'.bucket.objects ≡ none)
        × (lookup_key k₂ o'.bucket.objects ≡ none)
  replace_photo_same_second small big accepted accepted' clear =
      let b₁ = discard_url cfg r m.image_url full in
      let at = ap (λ (x : Result HttpError MenuItem × Office). x.1.bucket) replaced in
      let see = λ (k : String). ap (λ (b : Bucket). lookup_key k b.objects) at in
      (
        ap (λ (x : Result HttpError MenuItem × Office). x.0) replaced,
        unfold set_urls in named "thumb" clear,
        see k₁
            ∙ stays_gone cfg r m.image_large_url k₁ b₁ (
                discarded cfg r m.image_url k₁ full (ap (key_of cfg r) small ∙ named "thumb" clear)
                  accepted),
        see k₂
            ∙ discarded cfg r m.image_large_url k₂ b₁ (ap (key_of cfg r) big ∙ named "large" clear)
                accepted',
      )
