-- ===== src/Examples.antt =====
-- The theorems at concrete tables, menus and carts.
mod Fixtures
mod Payments
mod Keyed
mod Orders
mod Creation
mod Menus
mod Carts
mod Registers
mod Documents
mod Channels
mod Drawers
mod Days
