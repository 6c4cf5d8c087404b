-- ===== src/Pricing.antt =====
-- apps/backend/src/orders/order-pricing.service.ts: prices, discounts, stock, ticket numbers and
-- customers. The tables that its queries read are lists of rows.
pub mod Cart
pub mod Discounts
pub mod Stock
pub mod Locations
