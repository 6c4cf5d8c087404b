-- ===== src/Database.antt =====
-- The rows that the order handlers read and write (apps/backend/src/database/schema.ts, orders,
-- orderItems, payments and orderMutations) and the queries that they share. A table is the list of
-- its rows; an order's item rows are kept with the order, since every query on them goes by orderId.
pub mod Laws
use antd_platform.Prelude.{
  ℕ, ◌+◌, ◌*◌, Bool, ◌&&◌, Option, none, some, List, [], ◌∷◌, ◌++◌, map, Text, text_eq, find,
  filter, if◌then◌else◌, sum_of,
}
use antd_platform.Prelude.Int.{ℤ, sum_ℤ}
use antd_platform.Status.{OrderStatus}

-- A selected modifier option as it was priced.
pub record Snapshot : Type 0 where
  pub option_id : Text
  pub modifier : Text
  pub option : Text
  pub price_adjustment : ℕ

-- A cart line after pricing, and the row that is stored for it. Cents are whole and not negative.
pub record OrderItem : Type 0 where
  pub menu_item_id : Text
  pub quantity : ℕ
  pub price : ℕ
  pub modifiers : List Snapshot
  pub notes : Option Text
  pub course : Option ℕ
  pub fired_at : Option ℕ

pub record Order : Type 0 where
  pub id : Text
  pub organization_id : Text
  pub location_id : Option Text
  pub status : OrderStatus
  pub customer_id : Option Text
  pub customer_name : Text
  pub customer_phone : Text
  pub table_id : Option Text
  pub order_type : Text
  pub special_instructions : Option Text
  pub ticket_number : ℕ
  pub client_order_id : Option Text
  pub by_course : Bool
  pub items : List OrderItem
  pub subtotal : ℕ
  pub discount_amount : ℕ
  pub discount_id : Option Text
  pub service_charge_amount : ℕ
  pub tax_amount : ℕ
  pub tip_amount : ℕ
  pub loyalty_points_earned : ℕ
  pub loyalty_points_redeemed : ℕ
  pub total_amount : ℕ
  pub payment_method : Option Text
  pub paid_at : Option ℕ
  pub deleted_at : Option ℕ

-- A refund is a row with a negative amount.
pub record Payment : Type 0 where
  pub order_id : Text
  pub method : Text
  pub amount : ℤ
  pub tip_amount : ℤ
  pub cash_received : Option ℤ
  pub change_given : Option ℤ
  pub created_by : Text

-- A claimed idempotency key of `order_mutations`.
pub record Claim : Type 0 where
  pub organization_id : Text
  pub client_mutation_id : Text

pub record Db : Type 0 where
  pub orders : List Order
  pub payments : List Payment
  pub claims : List Claim

-- select … from orders where id = … and organizationId = … limit 1
unfoldable pub find_order : Text → Text → Db → Option Order
find_order org id db = find (λ o. text_eq o.id id && text_eq o.organization_id org) db.orders

abbrev pub change_at : Text → (Order → Order) → List Order → List Order
change_at id f [] = []
change_at id f (o ∷ os) = (if text_eq o.id id then f o else o) ∷ change_at id f os

-- update orders set … where id = …
unfoldable pub update_order : Text → (Order → Order) → Db → Db
update_order id f db = record db { orders = change_at id f db.orders }

-- select … from payments where orderId = …
unfoldable pub payments_of : Text → Db → List Payment
payments_of id db = filter (λ p. text_eq p.order_id id) db.payments

-- insert into payments values (…)
unfoldable pub insert_payments : List Payment → Db → Db
insert_payments ps db = record db { payments = db.payments ++ ps }

-- `items.reduce((sum, i) => sum + i.price * i.quantity, 0)`
unfoldable pub items_subtotal : List OrderItem → ℕ
items_subtotal = sum_of (λ i. i.price * i.quantity)
