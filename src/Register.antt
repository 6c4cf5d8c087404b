-- ===== src/Register.antt =====
-- The register's own database (apps/pos/src/types.ts, and apps/pos/src/db): the orders that it keeps
-- and the outbox of work that it owes to the server.
pub mod Orders
pub mod Outbox
pub mod Tabs
pub mod Wire
pub mod Sync
pub mod Snapshots
pub mod Drawer
pub mod Days
use antd_platform.Prelude.{ℕ, Bool, Option, List, Text}
use antd_platform.Prelude.Int.{ℤ}
use antd_platform.Cart.{SelectedModifier}
use antd_platform.Cart.Delta.{DeltaItem}

-- `incoming` orders live on the server and are only displayed.
pub data LocalOrderStatus : Type 0 where
  held open_tab pending_sync synced failed incoming : LocalOrderStatus

pub record LocalOrderItem : Type 0 where
  pub line_id : Option Text
  pub menu_item_id : Text
  pub name : Text
  pub unit_price : ℕ
  pub quantity : ℕ
  pub notes : Option Text
  pub course : Option ℕ
  pub fired_at : Option ℕ
  pub price_override : Option ℕ
  pub price_override_reason : Option Text
  pub modifiers : List SelectedModifier

pub record LocalOrder : Type 0 where
  pub id : Text
  pub server_id : Option Text
  pub ticket_number : Option ℕ
  pub status : LocalOrderStatus
  pub items : List LocalOrderItem
  pub customer_id : Option Text
  pub customer_name : Text
  pub customer_phone : Text
  pub table_id : Option Text
  pub table_name : Option Text
  pub guests : Option ℕ
  pub order_type : Text
  pub subtotal : ℕ
  pub discount_id : Option Text
  pub discount_name : Option Text
  pub discount_amount : ℕ
  pub tax_amount : ℕ
  pub total_amount : ℕ
  pub payment_method : Option Text
  pub tendered_amount : Option ℕ
  pub change_amount : Option ℕ
  pub tip_amount : ℕ
  pub service_charge_amount : ℕ
  pub loyalty_points_redeemed : ℕ
  pub special_instructions : Option Text
  pub error_message : Option Text
  pub created_at : ℕ
  pub synced_at : Option ℕ
  pub tab_opened_at : Option ℕ
  pub by_course : Bool
  pub business_day_id : Option Text

-- The kind of a mutation with its payload.
pub data Work : Type 0 where
  create : Work
  append : List DeltaItem → Work
  fire : ℕ → Work
  settle : Text → Option ℤ → Work

pub record OrderMutation : Type 0 where
  pub id : Text
  pub order_id : Text
  pub work : Work
  pub created_at : ℕ
  pub attempts : ℕ
  pub last_error : Option Text

-- The two tables, each in the order of its rows.
pub record Register : Type 0 where
  pub orders : List LocalOrder
  pub outbox : List OrderMutation
