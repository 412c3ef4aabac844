-- ===== src/Admin/Settings.antt =====
-- qorder_api/api/admin_router.py: the staff PIN and the settings of a restaurant.
pub mod Effects
use goi_mon.Prelude.{
  ℕ, String, Bool, true, false, ◌&&◌, ◌||◌, not, Option, none, some, List, ◌==◌, leb, Exec, ok, err,
  raise_if, or_raise, pure, ◌>>=◌, ◌>>◌, Result,
}
use goi_mon.Sql.{select, update}
use goi_mon.Sql.Keyed.{find}
use goi_mon.Model.{RestaurantSettings, User, Db, settings_key}
use goi_mon.Http.{HttpError, invalid_body, no_staff_user, no_settings}
use goi_mon.Auth.{TokenPayload, scalar_one_or_none, is_staff_of}
use goi_mon.Admin.{
  Office, Change, assign, assign_optional, is_null, every_value, has_length, gets_db, commit,
}

-- `hash_pin`: bcrypt with a fresh salt, which is third-party code.
unfoldable pub hash_pin : (String → String) → String → String
hash_pin hashpw pin = hashpw pin

unfoldable pub set_pin : String → User → User
set_pin hash u = record u { pin_hash = some hash }

abbrev pub write_pin : ℕ → String → Db → Db
write_pin id hash db = record db { users = update (λ u. u.id == id) (set_pin hash) db.users }

-- The staff user, once the rows of the query are known.
unfoldable pub reset_member :
    (String → String) → String → List User → Exec Office HttpError (Unit {0})
unfolding scalar_one_or_none
reset_member hashpw new_pin members = do
  found ← scalar_one_or_none members
  member ← or_raise found no_staff_user
  commit false (write_pin member.id (hash_pin hashpw new_pin))

unfoldable pub reset_staff_pin :
    (String → String) → String → TokenPayload → Exec Office HttpError (Unit {0})
reset_staff_pin hashpw new_pin user = do
  raise_if (not (has_length 4 8 new_pin)) invalid_body
  members ← gets_db (λ db. select (is_staff_of user.restaurant_id) db.users)
  reset_member hashpw new_pin members

-- SettingsResponse
pub record SettingsResponse : Type 0 where
  pub kitchen_screen_requires_pin : Bool
  pub currency : String
  pub logo_url : Option String
  pub timezone : String
  pub default_savory_minutes : ℕ
  pub default_light_minutes : ℕ
  pub session_timeout_hours : ℕ
  pub staff_call_cooldown_seconds : ℕ
  pub report_sheet_id : Option String
  pub report_sync_cron : String
  pub bill_footer_note : Option String

unfoldable pub settings_response : RestaurantSettings → SettingsResponse
settings_response s = record {
  kitchen_screen_requires_pin = s.kitchen_screen_requires_pin;
  currency = s.currency;
  logo_url = s.logo_url;
  timezone = s.timezone;
  default_savory_minutes = s.default_savory_minutes;
  default_light_minutes = s.default_light_minutes;
  session_timeout_hours = s.session_timeout_hours;
  staff_call_cooldown_seconds = s.staff_call_cooldown_seconds;
  report_sheet_id = s.report_sheet_id;
  report_sync_cron = s.report_sync_cron;
  bill_footer_note = s.bill_footer_note;
}

unfoldable pub get_settings : TokenPayload → Exec Office HttpError SettingsResponse
get_settings user = do
  found ← gets_db (λ db. find settings_key user.restaurant_id db.settings)
  settings ← or_raise found no_settings
  pure (settings_response settings)

-- UpdateSettingsRequest
pub record UpdateSettings : Type 0 where
  pub kitchen_screen_requires_pin : Change Bool
  pub currency : Change String
  pub logo_url : Change String
  pub timezone : Change String
  pub default_savory_minutes : Change ℕ
  pub default_light_minutes : Change ℕ
  pub session_timeout_hours : Change ℕ
  pub staff_call_cooldown_seconds : Change ℕ
  pub report_sheet_id : Change String
  pub report_sync_cron : Change String
  pub bill_footer_note : Change String

-- The timeout is at least 1.
unfoldable pub is_valid_settings : UpdateSettings → Bool
is_valid_settings body = every_value (λ h. leb 1 h) body.session_timeout_hours

-- A null for a column that takes none.
unfoldable pub nulls_settings : UpdateSettings → Bool
nulls_settings body =
    is_null body.kitchen_screen_requires_pin
    || (is_null body.currency
        || (is_null body.timezone
            || (is_null body.default_savory_minutes
                || (is_null body.default_light_minutes
                    || (is_null body.session_timeout_hours
                        || (is_null body.staff_call_cooldown_seconds
                            || is_null body.report_sync_cron))))))

-- The row after the loop of `setattr`; `stamp` is its `updated_at` after the flush, which SQLAlchemy
-- raises to the present if a column changed.
unfoldable pub patch_settings : ℕ → UpdateSettings → RestaurantSettings → RestaurantSettings
patch_settings stamp body s = record {
  restaurant_id = s.restaurant_id;
  currency = assign body.currency s.currency;
  logo_url = assign_optional body.logo_url s.logo_url;
  timezone = assign body.timezone s.timezone;
  default_savory_minutes = assign body.default_savory_minutes s.default_savory_minutes;
  default_light_minutes = assign body.default_light_minutes s.default_light_minutes;
  session_timeout_hours = assign body.session_timeout_hours s.session_timeout_hours;
  kitchen_screen_requires_pin =
      assign body.kitchen_screen_requires_pin s.kitchen_screen_requires_pin;
  staff_call_cooldown_seconds =
      assign body.staff_call_cooldown_seconds s.staff_call_cooldown_seconds;
  report_sheet_id = assign_optional body.report_sheet_id s.report_sheet_id;
  report_sync_cron = assign body.report_sync_cron s.report_sync_cron;
  bill_footer_note = assign_optional body.bill_footer_note s.bill_footer_note;
  updated_at = stamp;
}

abbrev pub write_settings : ℕ → UpdateSettings → ℕ → Db → Db
write_settings stamp body id db = record db {
  settings = update (λ s. s.restaurant_id == id) (patch_settings stamp body) db.settings;
}

unfoldable pub update_settings :
    ℕ → UpdateSettings → TokenPayload → Exec Office HttpError SettingsResponse
update_settings stamp body user = do
  raise_if (not (is_valid_settings body)) invalid_body
  found ← gets_db (λ db. find settings_key user.restaurant_id db.settings)
  settings ← or_raise found no_settings
  commit (nulls_settings body) (write_settings stamp body settings.restaurant_id)
  pure (settings_response (patch_settings stamp body settings))
