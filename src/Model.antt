-- ===== src/Model.antt =====
-- The data model (qorder_api/models): enums, rows, and the database as the lists of its rows.
-- UUIDs are natural numbers, a timestamp counts microseconds, an amount counts hundredths.
mod Enums
mod Tenants
mod Menu
mod Visits
mod Orders
mod Database
pub use Enums.*
pub use Tenants.*
pub use Menu.*
pub use Visits.*
pub use Orders.*
pub use Database.*
