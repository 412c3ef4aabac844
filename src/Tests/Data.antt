-- ===== src/Tests/Data.antt =====
-- A restaurant with one table, one visit and two dishes on it.
use goi_mon.Prelude.{
  ℕ, ◌+◌, ◌*◌, ◌≢◌, refl, Bool, true, false, Option, none, some, List, [], ◌∷◌, arith,
}
use goi_mon.Sql.{select}
use goi_mon.Sql.Keyed.{IsKeyed}
use goi_mon.Model.{
  Db, Restaurant, RestaurantSettings, User, staff, Table, MenuItem, TableSession, SessionStatus,
  opened, abandoned, OrderItem, OrderItemStatus, pending, served, StaffCall, StaffCallStatus, hour,
  second, session_key,
}
use goi_mon.Realtime.{World}
use goi_mon.Http.{Env}
use goi_mon.Auth.{TokenPayload, RawClaims}
use goi_mon.Invariant.{IsValid}

-- Three hours after the epoch of these tests.
abbrev pub noon : ℕ
noon = 3 * hour

abbrev pub pho : Restaurant
pho = record {
  id = 1;
  slug = "pho";
  name = "Pho";
  phone = none;
  address = none;
  is_active = true;
  created_at = 0;
  updated_at = 0;
}

abbrev pub pho_settings : RestaurantSettings
pho_settings = record {
  restaurant_id = 1;
  currency = "VND";
  logo_url = none;
  timezone = "Asia/Ho_Chi_Minh";
  default_savory_minutes = 15;
  default_light_minutes = 5;
  session_timeout_hours = 2;
  kitchen_screen_requires_pin = false;
  staff_call_cooldown_seconds = 60;
  report_sheet_id = none;
  report_sync_cron = "0 2 * * *";
  bill_footer_note = none;
  updated_at = 0;
}

abbrev pub linh : User
linh = record {
  id = 7;
  restaurant_id = 1;
  role = staff;
  email = none;
  password_hash = none;
  pin_hash = some "1234";
  display_name = none;
  is_active = true;
  created_at = 0;
}

abbrev pub table_three : Table
table_three = record {
  id = 3;
  restaurant_id = 1;
  table_number = "3";
  qr_token = "qr3";
  qr_image_url = none;
  is_active = true;
  created_at = 0;
}

abbrev pub dish_of : ℕ → ℕ → Bool → MenuItem
dish_of id price on_sale = record {
  id = id;
  restaurant_id = 1;
  category_id = none;
  name = "Pho bo";
  description = none;
  price = price;
  prep_time_minutes = 10;
  is_available = on_sale;
  is_active = true;
  image_url = none;
  image_large_url = none;
  is_featured = false;
  sort_order = 0;
  created_at = 0;
  updated_at = 0;
}

abbrev pub visit_of : SessionStatus → Option ℕ → TableSession
visit_of status abandoned_at = record {
  id = 30;
  restaurant_id = 1;
  table_id = 3;
  status = status;
  opened_by = none;
  opened_at = 0;
  last_activity_at = 0;
  closed_at = none;
  abandoned_at = abandoned_at;
  total_amount = none;
}

abbrev pub visit : TableSession
visit = visit_of opened none

abbrev pub item_of : ℕ → OrderItemStatus → Option ℕ → OrderItem
item_of id status served_at = record {
  id = id;
  restaurant_id = 1;
  order_id = 40;
  menu_item_id = 20;
  name_snapshot = "Pho bo";
  price_snapshot = 5000;
  prep_time_snapshot = 10;
  quantity = 2;
  note = none;
  status = status;
  requested_at = 0;
  served_by = none;
  served_at = served_at;
  cancelled_by = none;
  cancelled_at = none;
  cancel_reason = none;
}

-- One dish was served a minute before noon, one is still waiting.
abbrev pub eaten : OrderItem
eaten = item_of 50 served (some (179 * (60 * second)))

abbrev pub awaited : OrderItem
awaited = item_of 51 pending none

abbrev pub bell : StaffCall
bell = record {
  id = 60;
  restaurant_id = 1;
  table_id = 3;
  table_session_id = 30;
  status = StaffCallStatus.pending;
  created_at = 0;
  acknowledged_at = none;
  acknowledged_by = none;
}

abbrev pub db_with : List TableSession → Db
db_with sessions = record {
  restaurants = pho ∷ [];
  settings = pho_settings ∷ [];
  users = linh ∷ [];
  tables = table_three ∷ [];
  categories = [];
  menu_items = dish_of 20 5000 true ∷ dish_of 21 6000 false ∷ [];
  sessions = sessions;
  orders =
      record { id = 40; restaurant_id = 1; table_session_id = 30; note = none; created_at = 0 }
      ∷ [];
  items = eaten ∷ awaited ∷ [];
  calls = bell ∷ [];
}

abbrev pub lunch : Db
lunch = db_with (visit ∷ [])

-- The guests left an hour before noon.
abbrev pub left_visit : TableSession
left_visit = visit_of abandoned (some (2 * hour))

abbrev pub deserted : Db
deserted = db_with (left_visit ∷ [])

-- Other guests sit down at the table.
abbrev pub next_visit : TableSession
next_visit = record {
  id = 31;
  restaurant_id = 1;
  table_id = 3;
  status = opened;
  opened_by = none;
  opened_at = 0;
  last_activity_at = 0;
  closed_at = none;
  abandoned_at = none;
  total_amount = none;
}

abbrev pub taken : Db
taken = db_with (left_visit ∷ next_visit ∷ [])

abbrev pub keep : Db → Db
keep db = db

abbrev pub world : Db → World
world db = record { db = db; events = []; redis_up = true; time_ns = λ k. k; readings = 0 }

-- The same database, with Redis out of order.
abbrev pub silent : Db → World
silent db = record { db = db; events = []; redis_up = false; time_ns = λ k. k; readings = 9 }

abbrev pub request : Env
request = record {
  open_now = noon;
  now = noon;
  clock = noon;
  session_id = 90;
  order_id = 91;
  item_id = λ k. 92 + k;
  call_id = 93;
  meanwhile = keep;
  later = keep;
  between = keep;
  ringing = keep;
}

abbrev pub waiter : TokenPayload
waiter = record { sub = 7; restaurant_id = 1; role = "staff" }

-- Every token is the waiter's, a hash is the text itself.
abbrev pub claims : RawClaims
claims = record { sub = some "7"; restaurant_id = some "1"; role = some "staff" }

pub eaten_ne_awaited : awaited.id ≢ eaten.id
eaten_ne_awaited = omega arith

pub lunch-IsValid : IsValid lunch
unfolding select
lunch-IsValid = record {
  sessions = record {
    keyed = (tt, tt);
    one_open = λ t. ground arith;
    unbilled = ((λ ne. refl), tt);
  };
  items = ((eaten_ne_awaited, tt), (tt, tt));
}

pub deserted-IsValid : IsValid deserted
unfolding select
deserted-IsValid = record {
  sessions = record {
    keyed = (tt, tt);
    one_open = λ t. ground arith;
    unbilled = ((λ ne. refl), tt);
  };
  items = ((eaten_ne_awaited, tt), (tt, tt));
}

next_ne_left : next_visit.id ≢ left_visit.id
next_ne_left = omega arith

pub taken-IsKeyed : IsKeyed session_key taken.sessions
taken-IsKeyed = ((next_ne_left, tt), (tt, tt))
