-- ===== src/Admin.antt =====
-- qorder_api/api/admin_router.py, admin_menu_router.py and admin_table_router.py: what the owner of a
-- restaurant may change. A handler acts on the database and on the object storage; what a failed
-- request has not committed is not in the database afterwards.
pub mod Requests
pub mod Settings
pub mod Menu
pub mod Photos
pub mod Tables
use goi_mon.Prelude.{
  ℕ, String, Bool, true, false, ◌&&◌, Option, none, some, List, [], ◌∷◌, leb, Exec, Result, ok, err,
  modify, gets, pure, raise_if, or_raise, ◌>>=◌, ◌>>◌, text_length,
}
use goi_mon.Model.{Db}
use goi_mon.Storage.{Bucket, Fault}
use goi_mon.Http.{HttpError, storage_failed, integrity_error}
use goi_mon.Auth.{Security, TokenPayload, get_current_user, require_role}

pub record Office : Type 0 where
  pub db : Db
  pub bucket : Bucket

-- `require_role("admin")`, the guard of the three routers.
unfoldable pub admin_user : {S : Type 0} → Security → Option String → Exec S HttpError TokenPayload
unfolding get_current_user require_role
admin_user sec credentials = do
  user ← get_current_user sec credentials
  require_role ("admin" ∷ []) user

-- A field of a PATCH body: absent, an explicit null, or a value. `model_dump(exclude_unset=True)`
-- leaves out the absent ones only.
pub data Change (A : Type 0) : Type 0 where
  unset : Change A
  null : Change A
  to : A → Change A

-- `setattr` on a column that takes no NULL; the commit refuses a row that was given one.
abbrev pub assign : {A : Type 0} → Change A → A → A
assign unset a = a
assign null a = a
assign (to b) a = b

abbrev pub is_null : {A : Type 0} → Change A → Bool
is_null unset = false
is_null null = true
is_null (to b) = false

-- `setattr` on a nullable column.
abbrev pub assign_optional : {A : Type 0} → Change A → Option A → Option A
assign_optional unset a = a
assign_optional null a = none
assign_optional (to b) a = some b

-- Field(min_length=lo, max_length=hi)
abbrev pub has_length : ℕ → ℕ → String → Bool
has_length lo hi s = leb lo (text_length s) && leb (text_length s) hi

-- The constraint of a field, where a value is given.
abbrev pub every_value : {A : Type 0} → (A → Bool) → Change A → Bool
every_value p unset = true
every_value p null = true
every_value p (to a) = p a

abbrev pub gets_db : {E A : Type 0} → (Db → A) → Exec Office E A
gets_db f o = (ok (f o.db), o)

-- The statements of a transaction and its commit, which a constraint may refuse.
abbrev pub commit : Bool → (Db → Db) → Exec Office HttpError (Unit {0})
commit refused f = do raise_if refused integrity_error; modify (λ o. record o { db = f o.db })

-- A call of the storage; no router catches what it raises.
abbrev pub on_bucket : {A : Type 0} → Exec Bucket Fault A → Exec Office HttpError A
on_bucket m o =
    let (r, b) = m o.bucket in
    elim r [
      | ok a ↦ (ok a, record o { bucket = b })
      | err e ↦ (err storage_failed, record o { bucket = b })
    ]
