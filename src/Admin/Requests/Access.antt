-- ===== src/Admin/Requests/Access.antt =====
-- Who may change what: the guard of the admin routers in front of their handlers.
use goi_mon.Prelude.{
  ◌≡◌, refl, String, Option, none, some, [], ◌∷◌, arith, err, Bool-cases, or_raise, ◌>>=◌, inl, inr,
  Result, ◌⊎◌,
}
use text.Mathlib.TextEquality.{eq_iff}
use goi_mon.Http.{HttpError, unauthenticated, forbidden}
use goi_mon.Auth.{
  Security, TokenPayload, decode_access_token, get_current_user, is_member, require_role,
}
use goi_mon.Storage.{Config}
use goi_mon.Admin.{Office}
use goi_mon.Admin.Requests.{Request, Outside, handle, serve}
use goi_mon.Admin.Requests.Isolation.{HasKeys, elsewhere, handle-elsewhere}

-- The request is turned away and nothing has changed, or an admin of a restaurant sent it.
abbrev pub IsGuarded :
    Security → Option String → Office → Result HttpError (Unit {0}) × Office → Type 0
IsGuarded sec credentials o (q, o') =
    (((q ≡ err unauthenticated) ⊎ (q ≡ err forbidden)) × (o' ≡ o))
    ⊎ ((token : String) × (u : TokenPayload) × (credentials ≡ some token)
        × (decode_access_token sec token ≡ some u)
        × (u.role ≡ "admin")
        × (elsewhere u.restaurant_id o'.db ≡ elsewhere u.restaurant_id o.db))

module _ {Image : Type 0} (cfg : Config) (ext : Outside Image) (sec : Security) (o : Office)
    (q : Request) (keys : HasKeys o.db) where
  role-IsGuarded :
      (token : String) (u : TokenPayload)
      → decode_access_token sec token ≡ some u
      → IsGuarded sec
          (some token)
          o
          ((require_role ("admin" ∷ []) u >>= (λ v. handle cfg ext v q)) o)
  unfolding require_role is_member
  role-IsGuarded token u e = elim (Bool-cases (is_member u.role ("admin" ∷ []))) [
    | inl in_ ↦ rw in_ (
        inr (
          token,
          u,
          refl,
          e,
          ground (arith, eq_iff u.role "admin"),
          handle-elsewhere cfg ext u o q keys,
        ))
    | inr out ↦ rw out (inl (inr refl, refl))
  ]

  token-IsGuarded :
      (token : String) (found : Option TokenPayload)
      → decode_access_token sec token ≡ found
      → IsGuarded sec (some token) o (
          ((or_raise found unauthenticated >>= require_role ("admin" ∷ []))
              >>= (λ v. handle cfg ext v q))
            o)
  token-IsGuarded token none e = inl (inl refl, refl)
  token-IsGuarded token (some u) e = role-IsGuarded token u e

  -- On a database with unique ids of users, settings, categories, dishes and tables, a request to
  -- the admin routers, whatever it is and whether it succeeds or not, either is turned away with
  -- 401 or 403 and changes neither the database nor the storage, or comes with a valid token of
  -- an admin; then the users, settings, categories, dishes and tables of all restaurants but that
  -- of the token, and all restaurants, visits, orders, items and calls, are as before.
  pub serve-IsGuarded :
      (credentials : Option String)
      → IsGuarded sec credentials o (serve cfg ext sec credentials q o)
  unfolding serve get_current_user
  serve-IsGuarded none = inl (inl refl, refl)
  serve-IsGuarded (some token) = token-IsGuarded token (decode_access_token sec token) refl
