-- ===== src/Customer.antt =====
-- qorder_api/api/customer_router.py: the endpoints behind a table's QR code.
pub mod Menu
pub mod Orders
pub mod Visits
