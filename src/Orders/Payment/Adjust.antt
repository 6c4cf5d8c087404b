-- ===== src/Orders/Payment/Adjust.antt =====
-- order-payment.service.ts, `adjustOrderItems`: a manager replaces the items of an order, and what was
-- overpaid is refunded. The order is read before the lock (`db0`) and again behind it (`db`); the
-- discount and the refund's method come from the first read, the rest from the second.
pub mod Laws
use antd_platform.Prelude.{
  ℕ, ◌+◌, ◌-◌, Bool, true, false, Option, none, some, List, [], ◌∷◌, map, Text, text_eq, Result, ok,
  err, ◌>>=◌, ◌>>◌, need, if◌then◌else◌, find, ltb, max,
}
use antd_platform.Prelude.Int.{ℤ, pos, ◌-ℤ◌, ltb_ℤ}
use antd_platform.Database.{OrderItem, Order, Db, update_order, insert_payments}
use antd_platform.Money.{Discount, fixed, discount_amount_for, rate_of}
use antd_platform.Pricing.Cart.{
  Menu, LineDto, ResolvedCartItem, PricingError, price_cart_items, order_item,
}
use antd_platform.Pricing.Locations.{Location, get_tax_rate}
use antd_platform.Orders.Payment.{PaymentError, order_for_update, invalid_pin, paid_sum_for, min_ℤ}
use antd_platform.Orders.Payment.Refund.{negative_row}

pub data AdjustError : Type 0 where
  payment : PaymentError → AdjustError
  pricing : PricingError → AdjustError

abbrev pub with_error {ℓ κ μ} :
    {E : Type ℓ} {F : Type κ} {A : Type μ} → (E → F) → Result E A → Result F A
with_error f (ok a) = ok a
with_error f (err e) = err (f e)

-- The stored amount of the discount, taken as a fixed one.
unfoldable pub snapshot_discount : ℕ → ℕ → ℕ
unfolding discount_amount_for
snapshot_discount amount subtotal =
    discount_amount_for
      (if ltb 0 amount
        then some (record { id = []; type = fixed; value = pos amount; requires_manager = false })
        else none)
      subtotal

-- The new amounts of the order.
pub record Tender : Type 0 where
  pub subtotal : ℕ
  pub discount_amount : ℕ
  pub tax_amount : ℕ
  pub total_amount : ℕ

unfoldable pub adjusted_tender : ℕ → ℕ → ℕ → ℕ → Tender
adjusted_tender new_subtotal new_discount tax_rate_bps live_tip =
    let live_start = new_subtotal - new_discount in
    let live_tax = rate_of live_start tax_rate_bps in
    record {
      subtotal = new_subtotal;
      discount_amount = new_discount;
      tax_amount = live_tax;
      total_amount = live_start + live_tax + live_tip;
    }

-- The replaced rows carry neither a course nor a fire time.
abbrev pub adjusted_item : ResolvedCartItem → OrderItem
adjusted_item i = record (order_item none i) { course = none }

unfoldable pub apply_adjustment : Tender → List ResolvedCartItem → ℤ → Order → Order
apply_adjustment t items net_paid o = record o {
  subtotal = t.subtotal;
  discount_amount = t.discount_amount;
  tax_amount = t.tax_amount;
  total_amount = t.total_amount;
  paid_at = if ltb_ℤ net_paid (pos t.total_amount) then none else o.paid_at;
  items = map adjusted_item items;
}

-- The refund of what was paid beyond the new total.
unfoldable pub refund_excess : Text → Text → ℤ → ℕ → Order → Db → Db
refund_excess manager id net_paid total order db =
    if ltb_ℤ (pos total) net_paid
    then insert_payments
        (negative_row manager id (min_ℤ net_paid (net_paid -ℤ pos total)) order ∷ []) db
    else db

unfoldable pub write_adjustment : Text → Text → Tender → List ResolvedCartItem → Order → Db → Db
write_adjustment manager id t items order db =
    let net_paid = paid_sum_for id db in
    refund_excess manager id net_paid t.total_amount order
      (update_order id (apply_adjustment t items net_paid) db)

unfoldable pub adjust_order_items :
    Text
    → Text
    → Option Text
    → Menu
    → List Location
    → List LineDto
    → Db
    → Db
    → Result AdjustError Db
adjust_order_items org id pin_holder menu rates lines db0 db = do
  manager ← need pin_holder (payment invalid_pin)
  order ← with_error payment (order_for_update org id db0)
  priced ← with_error pricing (price_cart_items menu org lines)
  let new_discount = snapshot_discount order.discount_amount priced.1
  order_locked ← with_error payment (order_for_update org id db)
  let t =
      adjusted_tender priced.1 new_discount (get_tax_rate rates order.location_id)
        order_locked.tip_amount
  ok (write_adjustment manager id t priced.0 order db)
