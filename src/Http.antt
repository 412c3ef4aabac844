-- ===== src/Http.antt =====
-- The errors that the routers answer with, and what a request brings along besides its parameters.
use goi_mon.Prelude.{ℕ, String, ◌&&◌, Option, ◌==◌, Exec, ok, err, or_raise, gets, ◌>>=◌, pure}
use text.Mathlib.Text.{◌==◌ as str_eq}
use goi_mon.Sql.{select, first}
use goi_mon.Model.{Db, Table, Restaurant, TableSession}
use goi_mon.Sessions.{SessionError, get_or_open}
use goi_mon.Realtime.{World, on_db}

-- One constructor for each `HTTPException` of the routers; `unhandled` is an exception that no
-- router catches.
pub data HttpError : Type 0 where
  bad_qr restaurant_inactive session_not_open unknown_dish dish_sold_out unknown_item bad_transition
        item_conflict unknown_table table_inactive unknown_session checkout_conflict restore_refused
        unknown_call invalid_body unauthenticated forbidden restaurant_not_found :
      HttpError
  multiple_rows : HttpError
  unknown_category unknown_menu_item foreign_category bad_content_type too_large empty_file
        invalid_image no_staff_user no_settings :
      HttpError
  -- A constraint of the database, or the object storage, refuses a write.
  integrity_error storage_failed : HttpError
  unhandled : SessionError → HttpError

unfoldable pub status_code : HttpError → ℕ
status_code bad_qr = 404
status_code restaurant_inactive = 404
status_code session_not_open = 400
status_code unknown_dish = 400
status_code dish_sold_out = 400
status_code unknown_item = 404
status_code bad_transition = 400
status_code item_conflict = 409
status_code unknown_table = 404
status_code table_inactive = 400
status_code unknown_session = 404
status_code checkout_conflict = 409
status_code restore_refused = 400
status_code unknown_call = 404
status_code invalid_body = 422
status_code unauthenticated = 401
status_code forbidden = 403
status_code restaurant_not_found = 404
status_code multiple_rows = 500
status_code unknown_category = 404
status_code unknown_menu_item = 404
status_code foreign_category = 400
status_code bad_content_type = 400
status_code too_large = 413
status_code empty_file = 400
status_code invalid_image = 400
status_code no_staff_user = 404
status_code no_settings = 404
status_code integrity_error = 500
status_code storage_failed = 500
status_code (unhandled e) = 500

-- The clocks, the identifiers that `gen_random_uuid()` hands out, and what other requests commit
-- while this one runs: `meanwhile` and `later` inside `get_or_open`, `between` after it, `ringing`
-- between the query and the INSERT of a staff call.
pub record Env : Type 0 where
  pub open_now : ℕ
  pub now : ℕ
  pub clock : ℕ
  pub session_id : ℕ
  pub order_id : ℕ
  pub item_id : ℕ → ℕ
  pub call_id : ℕ
  pub meanwhile : Db → Db
  pub later : Db → Db
  pub between : Db → Db
  pub ringing : Db → Db

-- An error of a service, as the router turns it into its own.
abbrev pub rescue : {S E F A : Type 0} → (E → F) → Exec S E A → Exec S F A
rescue f m s = let (r, s') = m s in elim r [ ok a ↦ (ok a, s') | err e ↦ (err (f e), s') ]

unfoldable pub find_table : String → Db → Option Table
unfolding select first
find_table qr_token db = first (select (λ t. str_eq t.qr_token qr_token && t.is_active) db.tables)

unfoldable pub find_restaurant : ℕ → Db → Option Restaurant
unfolding select first
find_restaurant id db = first (select (λ r. r.id == id && r.is_active) db.restaurants)

-- The first two steps of every customer endpoint.
unfoldable pub resolve : String → Exec World HttpError (Table × Restaurant)
unfolding find_table find_restaurant
resolve qr_token = do
  found ← gets (λ w. find_table qr_token w.db)
  table ← or_raise found bad_qr
  active ← gets (λ w. find_restaurant table.restaurant_id w.db)
  restaurant ← or_raise active restaurant_inactive
  pure (table, restaurant)

-- `SessionService.get_or_open`, then what others commit before the next statement.
unfoldable pub open_session : Env → ℕ → ℕ → Option ℕ → Exec World HttpError TableSession
open_session env table_id restaurant_id opened_by = rescue unhandled (
    on_db (
      get_or_open env.meanwhile env.later env.open_now env.session_id table_id restaurant_id
        opened_by))
