-- ===== src/Auth/Access.antt =====
-- Who is let in: tokens, roles and logins.
use goi_mon.Prelude.{
  ◌≡◌, ◌≢◌, refl, ap, sym, ◌∙◌, String, true, Option, none, some, List, [], ◌∷◌, arith, ok, err,
  Option-cases, Bool-cases, or_raise, or_raise-some, or_raise-none, ◌>>=◌, inl, inr, Result, ◌⊎◌,
}
use text.Mathlib.TextEquality.{eq_iff}
use goi_mon.Sql.{select}
use goi_mon.Model.{User, Restaurant, Db}
use goi_mon.Http.{HttpError, unauthenticated, forbidden, restaurant_not_found, multiple_rows}
use goi_mon.Auth.{
  Security, TokenPayload, decode_access_token, get_current_user, is_member, require_role,
  kitchen_roles, staff_user, find_slug, is_staff_of, is_admin_with, claims_of, login_member,
  login_staff, staff_login, admin_login,
}

-- The kitchen and table routers answer exactly the bearers of a valid token of staff or an admin:
-- with no valid token 401, with another role 403.
abbrev pub Verdict : Security → Option String → Result HttpError TokenPayload → Type 0
Verdict sec credentials (ok u) =
    (token : String) × (credentials ≡ some token)
    × (decode_access_token sec token ≡ some u)
    × ((u.role ≡ "staff") ⊎ (u.role ≡ "admin"))
Verdict sec credentials (err e) =
    ((e ≡ unauthenticated)
      × ((token : String) → credentials ≡ some token → decode_access_token sec token ≡ none))
    ⊎ ((e ≡ forbidden)
        × ((token : String) × (u : TokenPayload) × (credentials ≡ some token)
            × (decode_access_token sec token ≡ some u)
            × (u.role ≢ "staff")
            × (u.role ≢ "admin")))

module _ (sec : Security) (db : Db) where
  role-Verdict :
      (token : String) (u : TokenPayload)
      → decode_access_token sec token ≡ some u
      → Verdict sec (some token) (require_role kitchen_roles u db).0
  unfolding require_role is_member
  role-Verdict token u e = elim (Bool-cases (is_member u.role kitchen_roles)) [
    | inl in_ ↦
        rw in_ (token, refl, e, ground (arith, eq_iff u.role "staff", eq_iff u.role "admin"))
    | inr out ↦ rw out (
        inr (
          refl,
          (
            token,
            u,
            refl,
            e,
            (λ q. ground (arith, eq_iff u.role "staff")),
            (λ q. ground (arith, eq_iff u.role "admin")),
          ),
        ))
  ]

  staff_user_lem :
      (token : String) {o : Option TokenPayload}
      → decode_access_token sec token ≡ o
      → staff_user sec (some token) db
        ≡ (or_raise o unauthenticated >>= require_role kitchen_roles) db
  unfolding staff_user get_current_user
  staff_user_lem token e =
      ap (λ o'. (or_raise o' unauthenticated >>= require_role kitchen_roles) db) e

  -- The guard of the kitchen and table routers lets in exactly a bearer of a valid token whose
  -- role is staff or admin. Without a valid token the error is 401, with another role it is 403.
  pub staff_user-Verdict :
      (credentials : Option String) → Verdict sec credentials (staff_user sec credentials db).0
  staff_user-Verdict none = unfold staff_user get_current_user in inl (refl, λ token e. cc)
  staff_user-Verdict (some token) = elim (Option-cases (decode_access_token sec token)) [
    | inl bad ↦ rw (staff_user_lem token bad) (inl (refl, λ t q. cc (q, bad)))
    | inr (u, e) ↦ rw (staff_user_lem token e) (role-Verdict token u e)
  ]

module _ (sec : Security) (db : Db) where
  -- What a staff login has checked before it hands out a token.
  pub record IsStaffLogin (slug pin : String) (r : Restaurant) (u : User) : Type 0 where
    pub active : find_slug slug db ≡ some r
    pub member : select (is_staff_of r.id) db.users ≡ u ∷ []
    pub checked : (hash : String) × (u.pin_hash ≡ some hash) × (sec.checkpw pin hash ≡ true)

  staff_login_known :
      (slug pin : String) (r : Restaurant)
      → find_slug slug db ≡ some r
      → staff_login sec slug pin db ≡ login_member sec pin r (select (is_staff_of r.id) db.users) db
  unfolding staff_login
  staff_login_known slug pin r e =
      or_raise-some (login_staff sec pin) restaurant_not_found db (find_slug slug db) r e

  staff_login_unknown :
      (slug pin : String)
      → find_slug slug db ≡ none
      → staff_login sec slug pin db ≡ (err restaurant_not_found, db)
  unfolding staff_login
  staff_login_unknown slug pin e =
      or_raise-none (login_staff sec pin) restaurant_not_found db (find_slug slug db) e

  login_member_ok :
      (pin : String) (r : Restaurant) (members : List User) (t : TokenPayload)
      → (login_member sec pin r members db).0 ≡ ok t
      → (u : User) × (members ≡ u ∷ [])
        × ((hash : String) × (u.pin_hash ≡ some hash) × (sec.checkpw pin hash ≡ true))
        × (t ≡ claims_of r.id u)
  unfolding login_member
  login_member_ok pin r [] t h = absurd (cc)
  login_member_ok pin r (u ∷ []) t h = elim (Option-cases u.pin_hash) [
    | inl missing ↦ absurd (ground arith)
    | inr (hash, e) ↦ (u, refl, (hash, e, ground arith), ground arith)
  ]
  login_member_ok pin r (u ∷ v ∷ rest) t h = absurd (cc)

  -- A staff login that succeeds was for an active restaurant of that slug, with exactly one
  -- active staff user, whose PIN was checked, and its claims name that user and that restaurant.
  pub staff_login_ok :
      (slug pin : String) (t : TokenPayload)
      → (staff_login sec slug pin db).0 ≡ ok t
      → (r : Restaurant) × (u : User) × IsStaffLogin slug pin r u × (t ≡ claims_of r.id u)
  staff_login_ok slug pin t h = elim (Option-cases (find_slug slug db)) [
    | inl unknown ↦ absurd (cc (ap (λ p. p.0) (staff_login_unknown slug pin unknown), h))
    | inr (r, e) ↦
        let (u, m, checked, claims) =
          login_member_ok pin r (select (is_staff_of r.id) db.users) t
            (sym (ap (λ p. p.0) (staff_login_known slug pin r e)) ∙ h) in
        (r, u, record { active = e; member = m; checked = checked }, claims)
  ]

-- Where an active restaurant has two or more active staff users, every staff login of it is an
-- unhandled error.
pub staff_login_two :
    (sec : Security) (slug pin : String) (db : Db) (r : Restaurant) (u v : User) (rest : List User)
    → find_slug slug db ≡ some r
    → select (is_staff_of r.id) db.users ≡ u ∷ v ∷ rest
    → staff_login sec slug pin db ≡ (err multiple_rows, db)
staff_login_two sec slug pin db r u v rest e m =
    staff_login_known sec db slug pin r e
    ∙ ap (λ ms. login_member sec pin r ms db) m
    ∙ (unfold login_member in refl)

-- Two restaurants with an admin of one email lock both out.
pub admin_login_two :
    (sec : Security) (email password : String) (db : Db) (u v : User) (rest : List User)
    → select (is_admin_with email) db.users ≡ u ∷ v ∷ rest
    → admin_login sec email password db ≡ (err multiple_rows, db)
unfolding admin_login
admin_login_two sec email password db u v rest m = rw m
