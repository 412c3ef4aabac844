-- ===== src/Storage.antt =====
-- qorder_api/storage.py: the object storage behind QR codes and photos. boto3 and the S3 service are
-- third-party code: `Remote` says which of the calls the service refuses, and how.
pub mod Keys
pub mod Buckets
pub mod Objects
use goi_mon.Prelude.{
  ℕ, String, Bool, true, false, not, ◌&&◌, Option, none, some, List, [], ◌∷◌, ◌==◌, if◌then◌else◌,
  Exec, Result, ok, err, pure, ◌>>=◌, ◌>>◌, ◌<>◌,
}
use Prim.Native.Char.{Char, code}
use Prim.Native.String as Text
use text.Mathlib.Text.{◌==◌ as str_eq}

-- What the functions read of `Settings`. `uuid_text` is `str` of an identifier, `int_text` of an int.
pub record Config : Type 0 where
  pub s3_bucket : String
  pub s3_public_url : String
  pub base_url : String
  pub uuid_text : ℕ → String
  pub int_text : ℕ → String

-- The code of a `ClientError`: `http n` is a text that `int` reads.
pub data ErrorCode : Type 0 where
  http : ℕ → ErrorCode
  named : String → ErrorCode

-- `other_fault` is any exception that is not a `ClientError`, such as a refused connection.
pub data Fault : Type 0 where
  client_error : ErrorCode → Fault
  value_error other_fault : Fault

pub record Remote : Type 0 where
  pub head_bucket : Option Fault
  pub create_bucket : Option Fault
  pub put_bucket_policy : Option Fault
  pub put_object : String → Option Fault
  pub delete_object : String → Option Fault

pub record StoredObject : Type 0 where
  pub body : List ℕ
  pub content_type : String
  pub cache_control : Option String

-- The bucket of the service, and `_bucket_ensured` of this process.
pub record Bucket : Type 0 where
  pub ensured : Bool
  pub created : Bool
  pub public_read : Bool
  pub objects : List (String × StoredObject)

-- A call to the service.
abbrev pub call : {S : Type 0} → Option Fault → (S → S) → Exec S Fault (Unit {0})
call none f s = (ok tt, f s)
call (some e) f s = (err e, s)

abbrev owned_code : String
owned_code = "BucketAlreadyOwnedByYou"

-- `create_bucket`, where losing the race for it is no error.
unfoldable pub create_bucket : Option Fault → Exec Bucket Fault (Unit {0})
create_bucket none b = (ok tt, record b { created = true })
create_bucket (some (client_error (named c))) b =
    if str_eq c owned_code then (ok tt, b) else (err (client_error (named c)), b)
create_bucket (some e) b = (err e, b)

-- `head_bucket`: 404 leads to the creation, any other number is raised again, and a code that is no
-- number makes `int` raise.
unfoldable pub check_bucket : Remote → Option Fault → Exec Bucket Fault (Unit {0})
unfolding create_bucket
check_bucket r none b = (ok tt, b)
check_bucket r (some (client_error (http n))) b =
    if n == 404 then create_bucket r.create_bucket b else (err (client_error (http n)), b)
check_bucket r (some (client_error (named c))) b = (err value_error, b)
check_bucket r (some e) b = (err e, b)

unfoldable pub prepare_bucket : Remote → Exec Bucket Fault (Unit {0})
unfolding check_bucket
prepare_bucket r = do
  check_bucket r r.head_bucket
  call r.put_bucket_policy (λ b. record b { public_read = true; ensured = true })

unfoldable pub ensure_bucket : Remote → Exec Bucket Fault (Unit {0})
unfolding prepare_bucket
ensure_bucket r b = if b.ensured then (ok tt, b) else prepare_bucket r b

abbrev is_slash : Char → Bool
is_slash c = code c == b'/'

-- c followed by s, where s is stripped already
abbrev pub cons_stripped : Char → String → String
cons_stripped c Text.[] = if is_slash c then Text.[] else Text.◌∷◌ c Text.[]
cons_stripped c (Text.◌∷◌ d s) = Text.◌∷◌ c (Text.◌∷◌ d s)

-- s.rstrip("/")
unfoldable pub rstrip : String → String
rstrip Text.[] = Text.[]
rstrip (Text.◌∷◌ c s) = cons_stripped c (rstrip s)

-- f"/{bucket}/"
abbrev pub marker_of : Config → String
marker_of cfg = "/" <> (cfg.s3_bucket <> "/")

-- f"{base}/{bucket}/{key}"
unfoldable pub get_public_url : Config → String → String
unfolding rstrip
get_public_url cfg key = rstrip cfg.s3_public_url <> (marker_of cfg <> key)

-- What follows the prefix m of s.
unfoldable pub strip_prefix : String → String → Option String
strip_prefix Text.[] s = some s
strip_prefix (Text.◌∷◌ c m) Text.[] = none
strip_prefix (Text.◌∷◌ c m) (Text.◌∷◌ d s) =
    let rest = strip_prefix m s in if code c == code d then rest else none

abbrev pub or_later : Option String → String → String
or_later (some rest) later = rest
or_later none later = later

-- s.partition(m)[2]: what follows the first occurrence of m, or "".
unfoldable pub after_first : String → String → String
unfolding strip_prefix
after_first m Text.[] = Text.[]
after_first m (Text.◌∷◌ c s) = or_later (strip_prefix m (Text.◌∷◌ c s)) (after_first m s)

-- key or None
abbrev pub nonempty : String → Option String
nonempty Text.[] = none
nonempty (Text.◌∷◌ c s) = some (Text.◌∷◌ c s)

unfoldable pub key_from_public_url : Config → String → Option String
unfolding after_first
key_from_public_url cfg url = nonempty (after_first (marker_of cfg) url)

module _ {A : Type 0} where
  unfoldable pub lookup_key : String → List (String × A) → Option A
  lookup_key k [] = none
  lookup_key k ((j, v) ∷ rest) = let r = lookup_key k rest in if str_eq j k then some v else r

  unfoldable pub erase_key : String → List (String × A) → List (String × A)
  erase_key k [] = []
  erase_key k ((j, v) ∷ rest) = let r = erase_key k rest in if str_eq j k then r else (j, v) ∷ r

-- A header is sent for a value that is there and not empty.
abbrev pub truthy : Option String → Option String
truthy none = none
truthy (some s) = nonempty s

-- Of two objects with one key the later one stays.
unfoldable pub put_object : String → StoredObject → Bucket → Bucket
unfolding erase_key
put_object key x b = record b { objects = (key, x) ∷ erase_key key b.objects }

unfoldable pub upload_file :
    Config → Remote → String → List ℕ → String → Option String → Exec Bucket Fault String
unfolding ensure_bucket put_object get_public_url
upload_file cfg r key body content_type cache_control = do
  ensure_bucket r
  call (r.put_object key) (
      put_object key
        (record { body = body; content_type = content_type; cache_control = truthy cache_control }))
  pure (get_public_url cfg key)

-- A `ClientError` is logged and swallowed.
unfoldable pub delete_file : Remote → String → Exec Bucket Fault (Unit {0})
unfolding erase_key
delete_file r key b = elim (r.delete_object key) [
  | none ↦ (ok tt, record b { objects = erase_key key b.objects })
  | some (client_error c) ↦ (ok tt, b)
  | some e ↦ (err e, b)
]
