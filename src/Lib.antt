-- ===== src/Lib.antt =====
-- The order core of the platform: the restaurant's orders on the server (apps/backend), and the
-- register's cart, its local store and its synchronizer (apps/pos).
--
-- The parts and how they interact. An order moves along a table of statuses that the dashboard and
-- the marketplaces share. Its lines are priced from the menu, it may carry a discount and is taxed by
-- its location's rate. It comes from a register, a telephone call or a marketplace. Lines are appended,
-- replaced or fired to the kitchen while it is open; payments and refunds are rows of a ledger, and the
-- order is stamped as paid when they cover its total. What is printed follows from events of the order.
-- The register keeps a cart, shows totals from it, divides it into checks, stores orders and tabs
-- locally, counts the drawer's sales, and queues every mutation in an outbox. The synchronizer sends the
-- outbox over a network that may lose a request or its answer; creates, appends and fires carry keys by
-- which the server knows a repetition.
--
-- Files:
--   Prelude       shared names: numbers, lists, texts as lists of code units, results, integers
--   Strings       toLowerCase, toUpperCase and trim
--   Status        apps/backend/src/common/constants/order-status.ts, and Status/External the
--                 service in apps/backend/src/aggregator/core/services/order-status-transition.service.ts
--   Database      the rows of apps/backend/src/database/schema.ts that the handlers use
--   Money         discounts and rates, as in apps/pos/src/utils/money.ts and order-pricing.service.ts
--   Pricing       apps/backend/src/orders/order-pricing.service.ts: Cart (priceCartItems,
--                 taxableSubtotal), Discounts, Stock, Locations (rates, tickets, locations)
--   Shop          all tables of one moment, and the errors of the order handlers
--   Orders        apps/backend/src/orders: StatusWrites (updateOrderStatus, with advanceNativeStatus of
--                 aggregator.service.ts and handleStatusChange of aggregator-webhook.processor.ts),
--                 Payment (recordPayment, payOrder), Payment/Refund (refundPaidOrder,
--                 refundPartialOrder), Payment/Keyed (refunds with a key), Payment/Adjust
--                 (adjustOrderItems), Edit (appendOrderItems, updateOrderItems), Fire (fireCourse),
--                 Create (createPosOrder, with the customer behind a phone number), Channels
--                 (createOrderForOrg, createMarketplaceOrder), Ledger (the handlers as steps in any
--                 order)
--   Printing      apps/backend/src/orders/order-print.service.ts: which documents are printed
--   Idempotency   apps/backend/src/common/services/idempotency.service.ts, and withIdempotency
--   Cart          apps/pos/src/state/cartOps.ts: Signature, Lines, Totals, Split, Delta
--   Register      apps/pos/src: Orders, Outbox and Tabs (db/ordersRepo.ts, mutationsRepo.ts, tabsRepo.ts),
--                 Wire (api/client.ts; Wire/Backend is the server behind it, with the endpoints of
--                 apps/backend/src/orders/orders.controller.ts), Sync (sync/syncEngine.ts), Snapshots
--                 (carts to stored orders and back, state/CartContext.tsx), Drawer and Days (the cash
--                 drawer and the days of business, db/drawerRepo.ts and businessDayRepo.ts)
--   Examples      the theorems at concrete tables, carts and registers
--
-- Correspondence. A table is a list of rows, a handler a function from the tables to new tables and
-- an answer, or an error; each constructor of an error type is one thrown exception. Payments,
-- refunds, adjustments, appends and fires hold the order's advisory lock and are one step each. Status
-- changes and creations hold none and are modelled as one step too; updateOrderItems, which holds none
-- either, reads one state and writes to another. Functions keep the source's names
-- in snake case. Clocks, generated ids and the answer of the PIN check are arguments. Columns
-- that no modelled handler decides by are left out, such as names of discounts and times of change.
-- The synchronizer is written over any server, a function from its state and a request to an answer, and
-- over a list that says of each request whether it and its answer arrive. An order without a location
-- has ticket number 0 in place of null, and a marketplace's absent amount is 0.
--
-- Bounds. Amounts in cents are natural numbers and signed amounts integers, since prices, rates and
-- quantities are validated as not negative; no product comes near 2^53, so doubles are exact and
-- Math.round of a quotient is the integer rounding that is written out. The printing of a number
-- has fuel one above the number, which is more than its digits. The tax of a new order is a rate of a
-- quotient; the model takes the quotient exactly, where the source rounds a double. Every other
-- recursion is structural.
--
-- Not modelled: HTTP, SQL and its locking, audit entries, usage and realtime events; reports and queries;
-- the register's customers and copy of the catalog, its screens and printer drivers; the
-- adapters of the marketplaces; telephony, billing and the dashboard.
pub mod Prelude
pub mod Strings
pub mod Status
pub mod Database
pub mod Money
pub mod Pricing
pub mod Cart
pub mod Shop
pub mod Register
pub mod Orders
pub mod Printing
pub mod Idempotency
pub mod Examples
