-- ===== src/Lib.antt =====
-- QOrder: ordering from the table by QR code, for many restaurants on one database. Guests scan a
-- code and order, the kitchen works through a board of items, the cashier checks a table out, a
-- scheduled job abandons tables that went silent, and every change is announced over Redis to
-- WebSockets. The services write with single UPDATE statements that name the status they expect
-- (compare-and-swap), so that requests that race are decided by the database.
--
-- How the parts interact. The routers resolve the caller (a QR token, or the claims of a JWT), call
-- a service on the database and publish what has changed; the services change rows; the gateway
-- forwards what is published. In the model a service is a function on `Db`, all tables as lists of
-- rows, and a router a function on `World`, the database with the events that Redis has taken. An
-- error keeps the state that it was raised in.
--
-- The files, and the code they model:
--   Prelude      shared names, Boolean tests, `Exec` (state and error) with its laws
--   Sql          SELECT and UPDATE on lists of rows; Sql/Rows and Sql/Keyed hold their laws
--   Model        qorder_api/models: Enums (enums.py), Tenants (restaurant.py, user.py), Menu
--                (menu.py), Visits (table.py, session.py, staff_call.py), Orders (order.py), Database
--   Realtime     qorder_api/realtime/__init__.py: `publish`; Realtime/Blind, Delivery and
--                Delivery/Staff compare steps and handlers under different deliveries
--   Items        qorder_api/services/item_state_service.py: `set_status`, `cancel_item`,
--                `compute_overdue_level`; proofs in Items/Swap, Diagram, Moves, Cancel,
--                Overdue and Undo
--   Calls        qorder_api/services/staff_call_service.py: `create`, `ack`, `dismiss_pending`
--   Sessions     qorder_api/services/session_service.py: `get_or_open` and the settling of a bill;
--                Sessions/Checkout has `checkout`, Sessions/Restore has `restore`
--   Http         the answers of the routers, and the steps that they share
--   Customer     qorder_api/api/customer_router.py: Menu, Orders, Visits
--   Kitchen      qorder_api/api/kitchen_router.py
--   StaffTables  qorder_api/api/staff_table_router.py
--   Auth         qorder_api/auth and qorder_api/api/auth_router.py; Auth/Tickets has ws_ticket.py
--   Gateway      qorder_api/ws/gateway.py
--   Scheduler    qorder_api/scheduler/__init__.py: `_run_sweep`, `_abandon_session`, the lock
--   Storage      qorder_api/storage.py: the bucket, its objects, and the public URLs of keys
--   Admin        what the admin routers share; Admin/Settings has qorder_api/api/admin_router.py,
--                Admin/Menu admin_menu_router.py, Admin/Photos its photos with
--                qorder_api/images.py, Admin/Tables admin_table_router.py; Admin/Requests has all
--                requests that write, as one type
--   Reporting    qorder_api/reporting/__init__.py and the report job of the scheduler;
--                Reporting/Queries has the two aggregating queries
--   Printing     qorder_api/printing: Prices, Thermal (escpos_printer.py), Documents
--                (pdf_printer.py) and Bills (the fallback from one to the other)
--   Invariant    the invariant of the database; Invariant/Runs has the sequences of committed
--                operations
--   Tests        a small restaurant, and the theorems applied to it
--
-- Representation. A UUID is a number; the ids that the database generates are arguments. A
-- timestamp is a number of microseconds, an amount a number of hundredths (prices are not negative),
-- both unbounded like Python's and NUMERIC for the values that occur. `now()` is fixed within a
-- transaction and an argument, as is the clock of the process where the code reads that. What other
-- transactions commit is a function on `Db`, an argument as well, at four places: `meanwhile` and
-- `later` between the statements of `get_or_open`, `meanwhile` before the UPDATE of `restore`,
-- `between` after a session was read by a customer's request, and `ringing` between the query and
-- the INSERT of a staff call. Elsewhere the statements of a handler run as one step. A row of a unique column is the first that matches; rows with
-- equal sort keys come in the order of the table. `compute_overdue_level` divides in floating point;
-- the model compares by cross-multiplication, which decides alike unless a quotient of microseconds
-- is rounded onto a bound. Recursion is on lists, on texts and,
-- where prices are printed, on fuel.
--
-- The admin routers act on `Office`, the database and the bucket; the transaction of a failed request
-- leaves no trace in the database, while the storage keeps what it took. A field of a PATCH body is
-- absent, null or a value (`Change`). The days, the order of equal sort keys and the collation of
-- names are parameters of the queries or the order of the rows. In the printed prices the digits
-- come by fuel, and n + 1 is enough for n, as each step divides by ten. `stamp` is the time that the
-- database writes into `updated_at`. The report's
-- revenue is a `float` in the source, rounded from the exact sum that the model has.
--
-- Parameters for what is not in the repository: `Security` is what is used of the JWT library, of
-- `UUID` and of bcrypt; `World` carries whether Redis answers and the readings of its clock;
-- `Remote` answers for the S3 service, `Pillow` for the image library, `Gspread` for Google Sheets,
-- `Escpos` and `Weasy` for the printers; the QR renderer and the hashing of PINs are functions.
--
-- Not modelled: the migrations, the demo data, configuration and wiring, the texts of messages and
-- logs, the receive loops of the sockets, the start of the scheduler, the rollback of one session
-- when the sweep meets an exception, and the frontend.
pub mod Prelude
pub mod Sql
pub mod Model
pub mod Realtime
pub mod Items
pub mod Calls
pub mod Sessions
pub mod Http
pub mod Auth
pub mod Customer
pub mod Kitchen
pub mod StaffTables
pub mod Gateway
pub mod Delivery
pub mod Invariant
pub mod Scheduler
pub mod Storage
pub mod Admin
pub mod Reporting
pub mod Printing
pub mod Tests
