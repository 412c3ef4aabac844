-- ===== src/Storage/Objects.antt =====
-- The objects of the bucket: what uploads and deletions make of them.
use goi_mon.Prelude.{
  ℕ, String, Bool, false, Option, none, some, List, [], ◌∷◌, ◌≡◌, refl, ap, ◌∙◌, arith, Result, ok,
  err, if◌then◌else◌, ◌>>=◌, ◌>>◌,
}
use text.Mathlib.Text.{◌==◌ as str_eq}
use text.Mathlib.TextEquality.{eq_iff}
use text.Mathlib.TextPositions.{eq_refl}
use goi_mon.Storage.{
  Config, Remote, Fault, client_error, value_error, other_fault, Bucket, StoredObject,
  ensure_bucket, lookup_key, erase_key, put_object, upload_file, delete_file, call, get_public_url,
  truthy,
}
use goi_mon.Storage.Buckets.{prepare_bucket-IsEnsured}

module _ {A : Type 0} where
  pub lookup-erase :
      (j k : String) (xs : List (String × A))
      → lookup_key j (erase_key k xs) ≡ (if str_eq k j then none else lookup_key j xs)
  unfolding lookup_key erase_key
  lookup-erase j k [] = ground arith
  lookup-erase j k ((i, v) ∷ xs) =
      ground (arith, eq_iff k j, eq_iff i k, eq_iff i j, lookup-erase j k xs)

  pub lookup-put :
      (j k : String) (x : A) (xs : List (String × A))
      → lookup_key j ((k, x) ∷ erase_key k xs) ≡ (if str_eq k j then some x else lookup_key j xs)
  lookup-put j k x xs = unfold lookup_key in ground (arith, lookup-erase j k xs)

-- The object that an upload stores.
abbrev pub object_of : List ℕ → String → Option String → StoredObject
object_of body content_type cache_control = record {
  body = body;
  content_type = content_type;
  cache_control = truthy cache_control;
}

-- An upload to the bucket b, with its outcome: on success there is the new object under its key and
-- every other key has what it had; on failure the objects are as before.
abbrev pub IsUploaded :
    Config → String → StoredObject → Bucket → Result Fault String × Bucket → Type 0
IsUploaded cfg key x b (ok url, b') =
    (url ≡ get_public_url cfg key)
    × ((j : String)
        → lookup_key j b'.objects ≡ (if str_eq key j then some x else lookup_key j b.objects))
IsUploaded cfg key x b (err e, b') = b'.objects ≡ b.objects

ensure_bucket-objects : (r : Remote) (b : Bucket) → (ensure_bucket r b).1.objects ≡ b.objects
unfolding ensure_bucket
ensure_bucket-objects r b = ground (arith, (prepare_bucket-IsEnsured r r b).2)

module _ (cfg : Config) (r : Remote) (key : String) (body : List ℕ) (content_type : String)
    (cache_control : Option String) where
  abbrev object : StoredObject
  object = object_of body content_type cache_control

  abbrev store_it : Option Fault → Result Fault (Unit {0}) × Bucket → Result Fault String × Bucket
  store_it o (q, b') =
      ((λ (_ : Bucket). (q, b'))
          >> (call o (put_object key object) >>= λ _ c. (ok (get_public_url cfg key), c)))
        b'

  stored :
      (o : Option Fault) (q : Result Fault (Unit {0})) (b b' : Bucket)
      → b'.objects ≡ b.objects
      → IsUploaded cfg key object b (store_it o (q, b'))
  unfolding put_object
  stored none (ok _) b b' same = (
    refl,
    λ j.
        lookup-put j key object b'.objects
        ∙ ap
            (λ (xs : List (String × StoredObject)).
              if str_eq key j then some object else lookup_key j xs)
            same,
  )
  stored (some e) (ok _) b b' same = same
  stored o (err e) b b' same = same

  -- Whatever the service answers.
  pub upload_file-IsUploaded :
      (b : Bucket)
      → IsUploaded cfg key object b (upload_file cfg r key body content_type cache_control b)
  unfolding upload_file
  upload_file-IsUploaded b =
      stored (r.put_object key) (ensure_bucket r b).0 b (ensure_bucket r b).1
        (ensure_bucket-objects r b)

delete_outcome :
    (r : Remote) (key : String) (o : Option Fault) (b : Bucket)
    → r.delete_object key ≡ o
    → (delete_file r key b).1.objects
      ≡ (elim o [ none ↦ erase_key key b.objects | some _ ↦ b.objects ])
unfolding delete_file
delete_outcome r key none b e = rw (e, delete_file) refl
delete_outcome r key (some (client_error c)) b e = rw (e, delete_file) refl
delete_outcome r key (some value_error) b e = rw (e, delete_file) refl
delete_outcome r key (some other_fault) b e = rw (e, delete_file) refl

module _ (r : Remote) (key : String) (b : Bucket) where
  -- A deletion that the service accepts removes the object.
  pub delete_file_gone :
      r.delete_object key ≡ none → lookup_key key (delete_file r key b).1.objects ≡ none
  delete_file_gone e =
      ap (lookup_key key) (delete_outcome r key none b e)
      ∙ lookup-erase key key b.objects
      ∙ ap (λ (t : Bool). if t then none else lookup_key key b.objects) (eq_refl key)

  kept_or_erased :
      (o : Option Fault) (j : String)
      → r.delete_object key ≡ o
      → str_eq key j ≡ false
      → lookup_key j (delete_file r key b).1.objects ≡ lookup_key j b.objects
  kept_or_erased none j e other =
      ap (lookup_key j) (delete_outcome r key none b e)
      ∙ lookup-erase j key b.objects
      ∙ ap (λ (t : Bool). if t then none else lookup_key j b.objects) other
  kept_or_erased (some x) j e other = ap (lookup_key j) (delete_outcome r key (some x) b e)

  -- No deletion touches an object with another key.
  pub delete_file_other :
      (j : String)
      → str_eq key j ≡ false
      → lookup_key j (delete_file r key b).1.objects ≡ lookup_key j b.objects
  delete_file_other j other = kept_or_erased (r.delete_object key) j refl other

  none_stays :
      (o : Option Fault) (j : String)
      → r.delete_object key ≡ o
      → lookup_key j b.objects ≡ none
      → lookup_key j (delete_file r key b).1.objects ≡ none
  none_stays none j e gone =
      ap (lookup_key j) (delete_outcome r key none b e)
      ∙ lookup-erase j key b.objects
      ∙ ground arith
  none_stays (some x) j e gone = ap (lookup_key j) (delete_outcome r key (some x) b e) ∙ gone

  -- No deletion brings an object back.
  pub delete_file-none :
      (j : String)
      → lookup_key j b.objects ≡ none
      → lookup_key j (delete_file r key b).1.objects ≡ none
  delete_file-none j gone = none_stays (r.delete_object key) j refl gone
