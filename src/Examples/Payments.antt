-- ===== src/Examples/Payments.antt =====
-- Payments and refunds of one order.
use antd_platform.Strings.{trimmed, trim_start, trim, is_white}
use antd_platform.Pricing.Locations.{get_tax_rate}
use antd_platform.Money.{scale, raw_discount, discount_amount_for, rate_of}
use antd_platform.Database.{insert_payments, update_order, payments_of, find_order}
use antd_platform.Prelude.{arith, text_eq, ℕ, ◌≡◌, refl, some, ok, err, List, [], ◌∷◌, codes}
use antd_platform.Prelude.Int.{round_div, neg, ◌+ℤ◌, ◌-ℤ◌, pos}
use antd_platform.Orders.Payment.{
  distinct, summary_method, apply_payment, write_payment, paid_sum_for, charge, order_for_update,
  full_order, order_cancelled, record_payment,
}
use antd_platform.Orders.Payment.Record.{Paid, record_payment-Paid}
use antd_platform.Orders.Ledger.{InBounds, then, done, pays, refunds}
use antd_platform.Orders.Ledger.Invariant.{Steps-InBounds}
use antd_platform.Examples.Fixtures.{
  open_order, acme, tab, ann, open_db, cash_dto, paid_db, cash_receipt, refunded_db,
  partly_refunded_db, adjusted_db, menu, ten_percent_tax, one_burger,
}
use antd_platform.Orders.Payment.Refund.{
  refund_method, refund_rows, refund_paid_order, refund_partial_order,
}
use antd_platform.Orders.Payment.Refund.Laws.{
  Refunded, refund_paid_order-Refunded, refund_once, PartlyRefunded,
  refund_partial_order-PartlyRefunded,
}
use antd_platform.Orders.Payment.Adjust.{
  apply_adjustment, snapshot_discount, adjusted_tender, refund_excess, write_adjustment,
  adjust_order_items,
}
use antd_platform.Orders.Payment.Adjust.Laws.{Adjusted, adjust_order_items-Adjusted}
use antd_platform.Pricing.Cart.{
  selection_count, price_lines, option_of, is_attached, check_group, unit_price, attached_to,
  check_groups, select_options, menu_item_of, resolve_line, ResolvedCartItem, price_cart_items,
}

paid : record_payment 9 acme ann tab cash_dto open_db ≡ ok (paid_db, cash_receipt)
unfolding record_payment full_order find_order text_eq order_for_update charge ◌-ℤ◌ paid_sum_for
    payments_of write_payment ◌+ℤ◌ update_order insert_payments apply_payment summary_method
    distinct
paid = refl

record_payment-Paid_example : Paid 9 acme tab open_db paid_db cash_receipt
record_payment-Paid_example =
    record_payment-Paid 9 acme ann tab cash_dto open_db paid_db cash_receipt paid

refunded : refund_paid_order acme tab (some (codes "bob")) paid_db ≡ ok refunded_db
unfolding refund_paid_order order_for_update find_order text_eq paid_sum_for payments_of ◌+ℤ◌
    insert_payments update_order refund_rows neg
refunded = refl

refund_paid_order-Refunded_example : Refunded acme tab paid_db refunded_db
refund_paid_order-Refunded_example =
    refund_paid_order-Refunded acme tab (some (codes "bob")) paid_db refunded_db refunded

refund_once_example :
    (refund_paid_order acme tab (some ann) refunded_db ≡ err order_cancelled)
    × (refund_partial_order acme tab (some ann) (pos 1) refunded_db ≡ err order_cancelled)
refund_once_example =
    refund_once acme tab (some (codes "bob")) ann (pos 1) paid_db refunded_db refunded

partly :
    refund_partial_order acme tab (some (codes "bob")) (pos 500) paid_db ≡ ok partly_refunded_db
unfolding refund_partial_order order_for_update find_order text_eq paid_sum_for payments_of ◌+ℤ◌
    insert_payments refund_method neg
partly = refl

refund_partial_order-PartlyRefunded_example :
    PartlyRefunded acme tab (pos 500) paid_db partly_refunded_db
refund_partial_order-PartlyRefunded_example =
    refund_partial_order-PartlyRefunded acme tab (some (codes "bob")) (pos 500) paid_db
      partly_refunded_db partly

adjusted :
    adjust_order_items acme tab
      (some (codes "bob"))
      menu
      (ten_percent_tax ∷ [])
      (one_burger ∷ [])
      paid_db
      paid_db
    ≡ ok adjusted_db
unfolding adjust_order_items order_for_update find_order text_eq price_cart_items resolve_line
    menu_item_of select_options check_groups attached_to write_adjustment refund_excess
    adjusted_tender unit_price snapshot_discount rate_of get_tax_rate insert_payments payments_of
    update_order discount_amount_for raw_discount scale apply_adjustment refund_method paid_sum_for
    neg round_div ◌+ℤ◌ ◌-ℤ◌ check_group is_attached option_of price_lines selection_count is_white
    trim trim_start trimmed
adjusted = refl

adjust_order_items-Adjusted_example :
    (items : List ResolvedCartItem) × (subtotal : ℕ) × (price_cart_items menu acme (one_burger ∷ [])
      ≡ ok (items, subtotal))
    × Adjusted acme tab paid_db adjusted_db items subtotal
adjust_order_items-Adjusted_example =
    adjust_order_items-Adjusted acme tab (some (codes "bob")) menu (ten_percent_tax ∷ [])
      (one_burger ∷ []) paid_db paid_db adjusted_db adjusted

-- The bill is paid, and taken back.
open_within : InBounds acme tab open_db
unfolding find_order text_eq paid_sum_for payments_of
open_within = record {
  order = open_order;
  is = refl;
  not_negative = omega arith;
  not_over = omega arith;
}

Steps-InBounds_example : InBounds acme tab refunded_db
Steps-InBounds_example =
    Steps-InBounds acme tab open_db refunded_db
      (then (pays 9 ann tab cash_dto cash_receipt paid)
        (then (refunds tab (some (codes "bob")) refunded) done))
      open_within
