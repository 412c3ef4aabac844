-- ===== src/Auth.antt =====
-- qorder_api/auth and qorder_api/api/auth_router.py: who may call what. The JWT library and bcrypt
-- are third-party code: `Security` is what the application uses of them.
pub mod Tickets
pub mod Access
use goi_mon.Prelude.{
  ℕ, ◌+◌, ◌-◌, String, Bool, true, false, ◌&&◌, ◌||◌, Option, none, some, List, [], ◌∷◌, ◌==◌, leb,
  ltb, if◌then◌else◌, not, Exec, Result, ok, err, gets, pure, raise, or_raise, raise_if, ◌>>=◌,
  ◌>>◌,
}
use Prim.Native.Char.{code}
use text.Mathlib.Text.{◌==◌ as str_eq}
use goi_mon.Sql.{select, first}
use goi_mon.Sql.Keyed.{find}
use goi_mon.Model.{UserRole, staff, admin, Restaurant, RestaurantSettings, User, Db, settings_key}
use goi_mon.Http.{HttpError, unauthenticated, forbidden, restaurant_not_found, multiple_rows}

-- TokenPayload
pub record TokenPayload : Type 0 where
  pub sub : ℕ
  pub restaurant_id : ℕ
  pub role : String

-- The claims of a decoded token; a claim may be missing.
pub record RawClaims : Type 0 where
  pub sub : Option String
  pub restaurant_id : Option String
  pub role : Option String

-- `jwt.decode` under the configured key and algorithm at the current time (`none`: JWTError),
-- `UUID(text)` (`none`: ValueError), and `bcrypt.checkpw`.
pub record Security : Type 0 where
  pub jwt_decode : String → Option RawClaims
  pub uuid : String → Option ℕ
  pub checkpw : String → String → Bool

abbrev and_then : {A B : Type 0} → Option A → (A → Option B) → Option B
and_then none f = none
and_then (some a) f = f a

-- Missing and malformed claims are a TokenError, like a bad signature.
unfoldable pub decode_access_token : Security → String → Option TokenPayload
decode_access_token sec token = and_then (sec.jwt_decode token) λ raw.
    and_then (and_then raw.sub sec.uuid) λ sub.
      and_then (and_then raw.restaurant_id sec.uuid) λ restaurant_id.
        and_then raw.role
          λ role. some (record { sub = sub; restaurant_id = restaurant_id; role = role })

-- The dependency `get_current_user`, on the credentials of the Authorization header.
unfoldable pub get_current_user :
    {S : Type 0} → Security → Option String → Exec S HttpError TokenPayload
get_current_user sec credentials = do
  token ← or_raise credentials unauthenticated
  or_raise (decode_access_token sec token) unauthenticated

unfoldable pub is_member : String → List String → Bool
is_member r [] = false
is_member r (s ∷ rest) = str_eq r s || is_member r rest

-- The dependency `require_role(*roles)`.
unfoldable pub require_role :
    {S : Type 0} → List String → TokenPayload → Exec S HttpError TokenPayload
unfolding is_member
require_role roles user = do raise_if (not (is_member user.role roles)) forbidden; pure user

abbrev pub kitchen_roles : List String
kitchen_roles = "staff" ∷ "admin" ∷ []

-- The guard of the kitchen and table routers.
unfoldable pub staff_user : {S : Type 0} → Security → Option String → Exec S HttpError TokenPayload
unfolding get_current_user require_role
staff_user sec credentials = do
  user ← get_current_user sec credentials
  require_role kitchen_roles user

abbrev pin_setting : Option RestaurantSettings → Bool
pin_setting none = true
pin_setting (some s) = s.kitchen_screen_requires_pin

-- The safe default is that the PIN is required.
unfoldable pub get_kitchen_pin_required : ℕ → Db → Bool
unfolding find
get_kitchen_pin_required restaurant_id db =
    pin_setting (find settings_key restaurant_id db.settings)

-- A restaurant by its slug, if it is active.
abbrev active_only : Option Restaurant → Option Restaurant
active_only none = none
active_only (some r) = if r.is_active then some r else none

unfoldable pub find_slug : String → Db → Option Restaurant
unfolding select first
find_slug slug db = active_only (first (select (λ r. str_eq r.slug slug) db.restaurants))

abbrev pub is_role : UserRole → UserRole → Bool
is_role staff staff = true
is_role admin admin = true
is_role _ _ = false

-- `scalar_one_or_none()` on a query that no unique constraint limits to one row.
unfoldable pub scalar_one_or_none : {S A : Type 0} → List A → Exec S HttpError (Option A)
scalar_one_or_none [] = pure none
scalar_one_or_none (x ∷ []) = pure (some x)
scalar_one_or_none (x ∷ y ∷ rest) = raise multiple_rows

unfoldable pub is_staff_of : ℕ → User → Bool
is_staff_of restaurant_id u =
    u.restaurant_id == restaurant_id && (is_role u.role staff && u.is_active)

abbrev same_text : Option String → String → Bool
same_text none s = false
same_text (some t) s = str_eq t s

unfoldable pub is_admin_with : String → User → Bool
is_admin_with email u = same_text u.email email && (is_role u.role admin && u.is_active)

abbrev pub role_value : UserRole → String
role_value staff = "staff"
role_value admin = "admin"

-- The claims that a login signs.
abbrev pub claims_of : ℕ → User → TokenPayload
claims_of restaurant_id u = record {
  sub = u.id;
  restaurant_id = restaurant_id;
  role = role_value u.role;
}

-- The password or PIN of the user that was found.
unfoldable pub check_login : Security → String → Option String → Exec Db HttpError (Unit {0})
check_login sec secret stored = do
  hash ← or_raise stored unauthenticated
  raise_if (not (sec.checkpw secret hash)) unauthenticated

-- The staff login once the restaurant and the rows of its staff users are known.
unfoldable pub login_member :
    Security → String → Restaurant → List User → Exec Db HttpError TokenPayload
unfolding scalar_one_or_none check_login
login_member sec pin r members = do
  member ← scalar_one_or_none members
  u ← or_raise member unauthenticated
  check_login sec pin u.pin_hash
  pure (claims_of r.id u)

unfoldable pub login_staff : Security → String → Restaurant → Exec Db HttpError TokenPayload
login_staff sec pin r = do
  members ← gets (λ db. select (is_staff_of r.id) db.users)
  login_member sec pin r members

unfoldable pub staff_login : Security → String → String → Exec Db HttpError TokenPayload
unfolding login_staff
staff_login sec slug pin = do
  restaurant ← gets (find_slug slug)
  r ← or_raise restaurant restaurant_not_found
  login_staff sec pin r

unfoldable pub admin_login : Security → String → String → Exec Db HttpError TokenPayload
unfolding scalar_one_or_none check_login
admin_login sec email password = do
  members ← gets (λ db. select (is_admin_with email) db.users)
  member ← scalar_one_or_none members
  u ← or_raise member unauthenticated
  check_login sec password u.password_hash
  pure (claims_of u.restaurant_id u)
