-- ===== src/Admin/Photos/Variants.antt =====
-- The two variants of a photo in the bucket: their keys, their upload and their deletion.
use goi_mon.Prelude.{
  ℕ, String, Bool, true, false, Option, none, some, List, ◌≡◌, refl, ap, ◌∙◌, arith, Result, ok,
  inl, inr, Bool-cases, >>=-ok, ◌>>◌, if◌then◌else◌, ◌<>◌,
}
use Prim.Native.Char.{code}
use Prim.Native.String as Text
use text.Mathlib.Text.{◌==◌ as str_eq}
use text.Mathlib.TextEquality.{eq_iff}
use text.Mathlib.TextPositions.{eq_refl}
use goi_mon.Storage.{
  Config, Remote, Bucket, Fault, StoredObject, lookup_key, put_object, upload_file, ensure_bucket,
  prepare_bucket, call, get_public_url, key_from_public_url,
}
use goi_mon.Storage.Objects.{
  object_of, lookup-put, delete_file_gone, delete_file-none, delete_file_other,
}
use goi_mon.Admin.Photos.{
  both, photo_key, image_content_type, image_cache_control, upload_variants, discard_key,
  discard_url,
}

-- The object of a variant.
abbrev pub variant : List ℕ → StoredObject
variant bytes = object_of bytes image_content_type (some image_cache_control)

prefix_cancel : (p s t : String) → p <> s ≡ p <> t → s ≡ t
prefix_cancel Text.[] s t h = h
prefix_cancel (Text.◌∷◌ c p) s t h = prefix_cancel p s t (cc)

abbrev second_code : String → ℕ
second_code Text.[] = 0
second_code (Text.◌∷◌ c Text.[]) = 0
second_code (Text.◌∷◌ c (Text.◌∷◌ d s)) = code d

-- The two variants have different keys.
keys_differ :
    (cfg : Config) (version id : ℕ)
    → str_eq (photo_key cfg "thumb" version id) (photo_key cfg "large" version id) ≡ false
unfolding photo_key
keys_differ cfg version id =
    elim (Bool-cases
      (str_eq (photo_key cfg "thumb" version id) (photo_key cfg "large" version id))) [
        | inl e ↦
            let same =
              (eq_iff (photo_key cfg "thumb" version id) (photo_key cfg "large" version id)).0 e in
            let rest = prefix_cancel (cfg.uuid_text id) _ _ (prefix_cancel "menu/" _ _ same) in
            absurd (omega (arith, ap second_code rest))
        | inr e ↦ e
      ]

keys_differ' :
    (cfg : Config) (version id : ℕ)
    → str_eq (photo_key cfg "large" version id) (photo_key cfg "thumb" version id) ≡ false
keys_differ' cfg version id =
    let small = photo_key cfg "thumb" version id in
    let large = photo_key cfg "large" version id in
    ground (arith, eq_iff small large, eq_iff large small, keys_differ cfg version id)

module _ (cfg : Config) (r : Remote) where
  -- An upload that the service takes, to a bucket that is known to be ready.
  taken :
      (key : String) (body : List ℕ) (kind : String) (cache : Option String) (b : Bucket)
      → b.ensured ≡ true
      → r.put_object key ≡ none
      → upload_file cfg r key body kind cache b
        ≡ (ok (get_public_url cfg key), put_object key (object_of body kind cache) b)
  unfolding upload_file
  taken key body kind cache b ready accepted =
      >>=-ok (ensure_bucket r)
        (λ _.
          call (r.put_object key) (put_object key (object_of body kind cache))
          >> (λ c. (ok (get_public_url cfg key), c)))
        b tt b
        (unfold ensure_bucket in
          ap (λ (t : Bool). if t then (ok tt, b) else prepare_bucket r b) ready)
      ∙ ap
          (λ (o : Option Fault).
            (call o (put_object key (object_of body kind cache))
                >> (λ c. (ok (get_public_url cfg key), c)))
              b)
          accepted

  -- The key behind a stored URL, if it has one.
  abbrev pub key_of : Option String → Option String
  key_of none = none
  key_of (some url) = key_from_public_url cfg url

  -- A deletion of other objects, or of none.
  discard_other :
      (found : Option String) (j : String) (b : Bucket)
      → ((k : String) → found ≡ some k → str_eq k j ≡ false)
      → lookup_key j (discard_key r found b).objects ≡ lookup_key j b.objects
  unfolding discard_key
  discard_other none j b other = refl
  discard_other (some k) j b other = delete_file_other r k b j (other k refl)

  discard_url-key :
      (url : Option String) (b : Bucket) → discard_url cfg r url b ≡ discard_key r (key_of url) b
  unfolding discard_url discard_key
  discard_url-key none b = refl
  discard_url-key (some url) b = refl

  pub spared :
      (url : Option String) (j : String) (b : Bucket)
      → ((k : String) → key_of url ≡ some k → str_eq k j ≡ false)
      → lookup_key j (discard_url cfg r url b).objects ≡ lookup_key j b.objects
  spared url j b other =
      ap (λ (c : Bucket). lookup_key j c.objects) (discard_url-key url b)
      ∙ discard_other (key_of url) j b other

  key_stays :
      (found : Option String) (j : String) (b : Bucket)
      → lookup_key j b.objects ≡ none
      → lookup_key j (discard_key r found b).objects ≡ none
  unfolding discard_key
  key_stays none j b gone = gone
  key_stays (some k) j b gone = delete_file-none r k b j gone

  -- Of an object that is gone nothing comes back.
  pub stays_gone :
      (url : Option String) (j : String) (b : Bucket)
      → lookup_key j b.objects ≡ none
      → lookup_key j (discard_url cfg r url b).objects ≡ none
  stays_gone url j b gone =
      ap (λ (c : Bucket). lookup_key j c.objects) (discard_url-key url b)
      ∙ key_stays (key_of url) j b gone

  -- A discarded object is gone, if the service accepts the deletion.
  pub discarded :
      (url : Option String) (k : String) (b : Bucket)
      → key_of url ≡ some k
      → r.delete_object k ≡ none
      → lookup_key k (discard_url cfg r url b).objects ≡ none
  discarded url k b own accepted =
      ap (λ (c : Bucket). lookup_key k c.objects) (discard_url-key url b)
      ∙ ap (λ (found : Option String). lookup_key k (discard_key r found b).objects) own
      ∙ (unfold discard_key in delete_file_gone r k b accepted)

  module _ (version id : ℕ) (thumb large : List ℕ) (b : Bucket) (ready : b.ensured ≡ true) where
    abbrev pub small_key : String
    small_key = photo_key cfg "thumb" version id

    abbrev pub large_key : String
    large_key = photo_key cfg "large" version id

    abbrev pub filled : Bucket
    filled = put_object large_key (variant large) (put_object small_key (variant thumb) b)

    pub uploaded :
        r.put_object small_key ≡ none
        → r.put_object large_key ≡ none
        → upload_variants cfg r version id (thumb, large) b
          ≡ (ok (get_public_url cfg small_key, get_public_url cfg large_key), filled)
    unfolding upload_variants
    uploaded p q =
        let one = taken small_key thumb image_content_type (some image_cache_control) b ready p in
        let two =
          taken large_key large image_content_type (some image_cache_control)
            (put_object small_key (variant thumb) b) (unfold put_object in ready) q in
        rw (one, two, both)
          (ap
            (λ (x : Result Fault String × Bucket).
              (ok (get_public_url cfg small_key, get_public_url cfg large_key), x.1))
            two)

    pub filled_small : lookup_key small_key filled.objects ≡ some (variant thumb)
    filled_small =
        unfold put_object in
        (lookup-put small_key large_key (variant large)
            (put_object small_key (variant thumb) b).objects
          ∙ rw (keys_differ' cfg version id) (
              lookup-put small_key small_key (variant thumb) b.objects
              ∙ rw (eq_refl small_key) refl))

    pub filled_large : lookup_key large_key filled.objects ≡ some (variant large)
    filled_large =
        unfold put_object in
        (lookup-put large_key large_key (variant large)
            (put_object small_key (variant thumb) b).objects
          ∙ rw (eq_refl large_key) refl)
