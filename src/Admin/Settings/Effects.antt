-- ===== src/Admin/Settings/Effects.antt =====
-- What a new PIN and new settings mean to the rest of the program.
use goi_mon.Prelude.{
  ℕ, ◌≤◌, leb, String, Bool, true, false, some, List, [], ◌∷◌, ◌==◌, ◌≡◌, refl, ap, sym, ◌∙◌, arith,
  Result, ok, err, ==_refl, subst, if◌then◌else◌,
}
use goi_mon.Sql.{select, update, first}
use goi_mon.Sql.Keyed.{find, find-key, first-select_key}
use goi_mon.Sql.Owned.{find-rewritten}
use goi_mon.Model.{Db, User, Restaurant, RestaurantSettings, settings_key}
use goi_mon.Auth.{
  TokenPayload, Security, is_staff_of, staff_login, login_member, check_login, claims_of, find_slug,
  scalar_one_or_none, get_kitchen_pin_required,
}
use goi_mon.Http.{HttpError, unauthenticated}
use goi_mon.Calls.{get_cooldown}
use goi_mon.Scheduler.{settings_of}
use goi_mon.Admin.{Office, has_length, Change, unset, null, to, assign, every_value}
use goi_mon.Admin.Settings.{
  UpdateSettings, SettingsResponse, settings_response, reset_staff_pin, reset_member,
  update_settings, get_settings, patch_settings, set_pin, write_pin, hash_pin, write_settings,
  is_valid_settings, nulls_settings,
}

-- A test that a rewriting does not change selects the rewritten rows.
select-update :
    {A : Type 0} (p q : A → Bool) (f : A → A) (xs : List A)
    → ((x : A) → p (f x) ≡ p x)
    → select p (update q f xs) ≡ update q f (select p xs)
unfolding select update
select-update p q f [] same = refl
select-update p q f (x ∷ xs) same = ground (arith, same x, select-update p q f xs same)

module _ (sec : Security) (slug : String) (shop : Restaurant) (u : User) (db : Db) where
  -- The login of the one staff user.
  login_alone :
      (entered hash : String)
      → find_slug slug db ≡ some shop
      → select (is_staff_of shop.id) db.users ≡ u ∷ []
      → u.pin_hash ≡ some hash
      → (staff_login sec slug entered db).0
        ≡ (if sec.checkpw entered hash then ok (claims_of shop.id u) else err unauthenticated)
  unfolding staff_login login_member scalar_one_or_none check_login
  login_alone entered hash open_shop alone stored = ground arith

-- The one staff user is still the one, with the new hash.
staff-write_pin :
    (rid : ℕ) (hash : String) (u : User) (db : Db)
    → select (is_staff_of rid) db.users ≡ u ∷ []
    → select (is_staff_of rid) (write_pin u.id hash db).users ≡ set_pin hash u ∷ []
staff-write_pin rid hash u db alone =
    select-update (is_staff_of rid) (λ v. v.id == u.id) (set_pin hash) db.users
      (λ v. unfold is_staff_of set_pin in refl)
    ∙ ap (update (λ v. v.id == u.id) (set_pin hash)) alone
    ∙ (unfold update in ap (λ (t : Bool). (if t then set_pin hash u else u) ∷ []) (==_refl u.id))

module _ (hashpw : String → String) (pin : String) (user : TokenPayload) (o : Office) (u : User)
    (alone : select (is_staff_of user.restaurant_id) o.db.users ≡ u ∷ [])
    (long : has_length 4 8 pin ≡ true) where
  reset_outcome :
      reset_staff_pin hashpw pin user o
      ≡ (ok tt, record o { db = write_pin u.id (hash_pin hashpw pin) o.db })
  unfolding reset_staff_pin reset_member scalar_one_or_none
  reset_outcome = ground arith

  module _ (sec : Security) (slug : String) (shop : Restaurant) where
    -- After the owner of an active restaurant with exactly one active staff user has reset the
    -- PIN to one of 4 to 8 characters, a staff login of the restaurant succeeds with the claims
    -- of that user exactly if the bcrypt check of the entered PIN against the hash of the new PIN
    -- succeeds, and is answered with 401 otherwise.
    pub reset_staff_pin-staff_login :
        (entered : String)
        → find_slug slug o.db ≡ some shop
        → shop.id ≡ user.restaurant_id
        → (staff_login sec slug entered (reset_staff_pin hashpw pin user o).1.db).0 ≡ (
            if sec.checkpw entered (hashpw pin)
            then ok (claims_of shop.id u)
            else err unauthenticated)
    reset_staff_pin-staff_login entered open_shop mine =
        let db' = write_pin u.id (hash_pin hashpw pin) o.db in
        ap (λ (x : Result HttpError (Unit {0}) × Office). (staff_login sec slug entered x.1.db).0)
          reset_outcome
        ∙ login_alone sec slug shop (set_pin (hash_pin hashpw pin) u) db' entered (hashpw pin)
            (unfold find_slug in open_shop)
            (staff-write_pin shop.id (hash_pin hashpw pin) u o.db
              (ap (λ (r : ℕ). select (is_staff_of r) o.db.users) mine ∙ alone))
            (unfold set_pin hash_pin in refl)
        ∙ (unfold set_pin in refl)

-- What the readers of the settings see in a database.
pub record IsInForce (rid : ℕ) (r : SettingsResponse) (user : TokenPayload) (o : Office)
    : Type 0 where
  pub shown : (get_settings user o).0 ≡ ok r
  pub cooldown : get_cooldown rid o.db ≡ r.staff_call_cooldown_seconds
  pub pin_required : get_kitchen_pin_required rid o.db ≡ r.kitchen_screen_requires_pin
  pub timeout :
      (row : RestaurantSettings) × (settings_of rid o.db ≡ some row)
      × (row.session_timeout_hours ≡ r.session_timeout_hours)

in_force :
    (user : TokenPayload) (o : Office) (s : RestaurantSettings)
    → find settings_key user.restaurant_id o.db.settings ≡ some s
    → IsInForce user.restaurant_id (settings_response s) user o
unfolding get_settings settings_response
in_force user o s there =
    let first_row : first (select (λ r. r.restaurant_id == user.restaurant_id) o.db.settings)
        ≡ some s =
      first-select_key settings_key user.restaurant_id o.db.settings ∙ there in
    record {
      shown = ground arith;
      cooldown = unfold get_cooldown in ground (arith, first_row);
      pin_required = unfold get_kitchen_pin_required in ground arith;
      timeout = (s, unfold settings_of in first_row, refl);
    }

at_least :
    (c : Change ℕ) (old : ℕ) → every_value (λ h. leb 1 h) c ≡ true → 1 ≤ old → 1 ≤ assign c old
at_least unset old h before = before
at_least null old h before = before
at_least (to v) old h before = ground arith

module _ (stamp : ℕ) (body : UpdateSettings) (user : TokenPayload) (o : Office)
    (s : RestaurantSettings) (there : find settings_key user.restaurant_id o.db.settings ≡ some s)
    (valid : is_valid_settings body ≡ true) (full : nulls_settings body ≡ false) where
  updated : update_settings stamp body user o ≡ (
    ok (settings_response (patch_settings stamp body s)),
    record o { db = write_settings stamp body s.restaurant_id o.db },
  )
  unfolding update_settings
  updated = ground arith

  stored :
      find settings_key user.restaurant_id (write_settings stamp body s.restaurant_id o.db).settings
      ≡ some (patch_settings stamp body s)
  stored =
      subst
        (λ (k : ℕ).
          find settings_key user.restaurant_id
            (update (λ r. r.restaurant_id == k) (patch_settings stamp body) o.db.settings)
          ≡ some (patch_settings stamp body s))
        (sym (find-key settings_key user.restaurant_id o.db.settings s there))
        (find-rewritten settings_key user.restaurant_id (patch_settings stamp body) o.db.settings s
          (λ r. unfold patch_settings in refl) there)

  -- A PATCH of the settings with a timeout of at least one hour, if any, and no null for a column that
  -- takes none succeeds, and its answer is in force at once: `GET /admin/settings` shows it, and the
  -- cooldown of calls, the PIN of the kitchen screen and the timeout of the sweep are those of it.
  -- The timeout is at least one hour, if it was so before.
  pub update_settings-IsInForce :
      let (q, o') = update_settings stamp body user o in
      (r : SettingsResponse) × (q ≡ ok r)
      × IsInForce user.restaurant_id r user o'
      × (1 ≤ s.session_timeout_hours → 1 ≤ r.session_timeout_hours)
  update_settings-IsInForce =
      let new = patch_settings stamp body s in
      subst
        (λ (x : Result HttpError SettingsResponse × Office).
          (r : SettingsResponse) × (x.0 ≡ ok r)
          × IsInForce user.restaurant_id r user x.1
          × (1 ≤ s.session_timeout_hours → 1 ≤ r.session_timeout_hours))
        (sym updated)
        (
          settings_response new,
          refl,
          in_force user (record o { db = write_settings stamp body s.restaurant_id o.db }) new
              stored,
          λ before.
              unfold settings_response patch_settings is_valid_settings in
              at_least body.session_timeout_hours s.session_timeout_hours valid before,
        )
