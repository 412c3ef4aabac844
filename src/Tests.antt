-- ===== src/Tests.antt =====
-- Small databases, and what the theorems say about them.
pub mod Data
pub mod Desk
mod Visits
mod History
mod Dishes
mod Jobs
mod Doors
mod Office
mod Pictures
mod Reports
