-- ===== src/Orders/Ledger.antt =====
-- The handlers of apps/backend/src/orders as steps on the tables, in any order and by anyone of an
-- organization, and what holds of an order's ledger throughout. Amounts of partial refunds are at least
-- one cent, as their request is validated.
pub mod Handlers
pub mod Invariant
use antd_platform.Prelude.{
  ℕ, ◌≤◌, ◌≡◌, ◌≢◌, refl, sym, ap, ◌∙◌, subst, arith, Bool, true, false, Option, some, none, List,
  Text, text_eq, text_eq_iff, ok, inl, inr, Bool-cases,
}
use antd_platform.Prelude.Int.{ℤ, pos, ◌≤ℤ◌, sum_ℤ, int_laws}
use antd_platform.Status.{OrderStatus}
use antd_platform.Database.{Order, Payment, Db, find_order, payments_of}
use antd_platform.Pricing.Cart.{LineDto, Menu}
use antd_platform.Pricing.Discounts.{given}
use antd_platform.Pricing.Locations.{Location}
use antd_platform.Shop.{Shop}
use antd_platform.Orders.StatusWrites.{find_by_id, update_order_status, advance_native_status}
use antd_platform.Orders.StatusWrites.Laws.{
  Written, Follows, stays, moves, update_order_status-Written, advance_native_status-Written,
}
use antd_platform.Orders.Payment.{PaymentDto, Receipt, record_payment, paid_sum_for}
use antd_platform.Orders.Payment.Record.{Paid, record_payment-Paid}
use antd_platform.Orders.Payment.Refund.{refund_paid_order, refund_partial_order}
use antd_platform.Orders.Payment.Refund.Laws.{
  Refunded, refund_paid_order-Refunded, PartlyRefunded, refund_partial_order-PartlyRefunded,
}
use antd_platform.Orders.Payment.Adjust.{adjust_order_items}
use antd_platform.Orders.Payment.Adjust.Laws.{Adjusted, adjust_order_items-Adjusted}
use antd_platform.Orders.Edit.{OrderPatch, append_order_items, update_order_items}
use antd_platform.Orders.Edit.Laws.{Appended, append_order_items-Appended}
use antd_platform.Orders.Edit.Replace.{Replaced, update_order_items-Replaced}
use antd_platform.Orders.Create.{PosOrderDto, create_pos_order}
use antd_platform.Orders.Channels.{
  SpokenOrder, create_order_for_org, MarketplaceOrder, create_marketplace_order,
}
use antd_platform.Orders.Fire.{fire_course}
use antd_platform.Orders.Fire.Laws.{Fired, fire_course-Fired}

-- One accepted request; an append that is a replay changes nothing and is no step. A replacement of items
-- reads at an earlier moment, between which and its writes anything may happen but a payment or refund of
-- its order; the code has no guard against those.
pub data Step (org : Text) (db db' : Db) : Type 0 where
  pays :
      (now : ℕ) (user id : Text) (dto : PaymentDto) (r : Receipt)
      → record_payment now org user id dto db ≡ ok (db', r)
      → Step org db db'
  refunds :
      (id : Text) (pin_holder : Option Text)
      → refund_paid_order org id pin_holder db ≡ ok db'
      → Step org db db'
  refunds_part :
      (id : Text) (pin_holder : Option Text) (amount : ℤ)
      → pos 1 ≤ℤ amount
      → refund_partial_order org id pin_holder amount db ≡ ok db'
      → Step org db db'
  adjusts :
      (id : Text) (pin_holder : Option Text) (menu : Menu) (rates : List Location)
      (lines : List LineDto) (earlier : Db)
      → adjust_order_items org id pin_holder menu rates lines earlier db ≡ ok db'
      → Step org db db'
  appends :
      (role id : Text) (m : Option Text) (lines : List LineDto) (shop shop' : Shop)
      → shop.db ≡ db
      → shop'.db ≡ db'
      → append_order_items org role id m lines shop ≡ ok (shop', false)
      → Step org db db'
  replaces :
      (role id : Text) (patch : OrderPatch) (lines : List LineDto) (earlier shop shop' : Shop)
      → shop.db ≡ db
      → shop'.db ≡ db'
      → paid_sum_for id shop.db ≡ paid_sum_for id earlier.db
      → update_order_items org role id patch lines earlier shop ≡ ok shop'
      → Step org db db'
  creates :
      (now : ℕ) (id new_customer role answered : Text) (dto : PosOrderDto) (shop shop' : Shop)
      → shop.db ≡ db
      → shop'.db ≡ db'
      → find_by_id id shop.db ≡ none
      → create_pos_order now id new_customer org role dto shop ≡ ok (shop', answered)
      → Step org db db'
  phones :
      (id answered : Text) (dto : SpokenOrder) (shop shop' : Shop)
      → shop.db ≡ db
      → shop'.db ≡ db'
      → find_by_id id shop.db ≡ none
      → create_order_for_org id org dto shop ≡ ok (shop', answered)
      → Step org db db'
  delivers :
      (id new_customer answered : Text) (dto : MarketplaceOrder) (shop shop' : Shop)
      → shop.db ≡ db
      → shop'.db ≡ db'
      → create_marketplace_order id new_customer org dto shop ≡ ok (shop', answered)
      → Step org db db'
  fires :
      (now : ℕ) (id : Text) (course : ℕ) (m : Option Text) (flag : Bool)
      → fire_course now org id course m db ≡ ok (db', flag)
      → Step org db db'
  sets_status : (id status : Text) → update_order_status org id status db ≡ ok db' → Step org db db'
  advances :
      (id : Text) (target : OrderStatus)
      → advance_native_status org id target db ≡ ok db'
      → Step org db db'

pub data Steps (org : Text) : Db → Db → Type 0 where
  done : {db : Db} → Steps org db db
  then : {db db' db'' : Db} → Step org db db' → Steps org db' db'' → Steps org db db''

-- An order is never paid below zero, and never above its total.
pub record InBounds (org id : Text) (db : Db) : Type 0 where
  pub order : Order
  pub is : find_order org id db ≡ some order
  pub not_negative : pos 0 ≤ℤ paid_sum_for id db
  pub not_over : paid_sum_for id db ≤ℤ pos order.total_amount
