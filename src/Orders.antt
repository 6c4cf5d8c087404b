-- ===== src/Orders.antt =====
-- apps/backend/src/orders: the handlers that change orders.
pub mod StatusWrites
pub mod Payment
pub mod Edit
pub mod Fire
pub mod Create
pub mod Channels
pub mod Ledger
