-- ===== src/Orders/Payment/Refund.antt =====
-- order-payment.service.ts: `refundPaidOrder` and the transaction of `refundPartialOrder`.
pub mod Rows
pub mod Laws
use antd_platform.Prelude.{
  ℕ, zero, Bool, true, false, ◌&&◌, ◌||◌, not, Option, none, some, List, [], ◌∷◌, Text, codes,
  Result, ok, err, ◌>>=◌, ◌>>◌, refuse, need, if◌then◌else◌, is_some,
}
use antd_platform.Prelude.Int.{ℤ, pos, negsuc, neg, ◌-ℤ◌, leb_ℤ, ltb_ℤ, sum_ℤ}
use antd_platform.Status.{cancelled, same_status}
use antd_platform.Database.{
  Order, Payment, Db, find_order, update_order, payments_of, insert_payments,
}
use antd_platform.Orders.Payment.{
  PaymentError, order_cancelled, invalid_pin, not_paid, no_refundable_balance, exceeds_balance,
  order_for_update, paid_sum_for, min_ℤ,
}
use antd_platform.Orders.StatusWrites.{set_status}

-- Text is true in a test if it is there and not empty; an amount, if it is there and not 0.
abbrev pub has_text : Option Text → Bool
has_text none = false
has_text (some []) = false
has_text (some (c ∷ cs)) = true

-- `covers && amount ? -amount : null`.
abbrev pub mirrored : Bool → Option ℤ → Option ℤ
mirrored false amount = none
mirrored true none = none
mirrored true (some (pos zero)) = none
mirrored true (some a) = some (neg a)

abbrev pub same_amount : ℤ → ℤ → Bool
same_amount a b = leb_ℤ a b && leb_ℤ b a

abbrev pub refund_row : Text → ℤ → Payment → Payment
refund_row manager amount p =
    let covers_payment = same_amount amount p.amount in
    record p {
      amount = neg amount;
      tip_amount = if covers_payment then neg p.tip_amount else pos 0;
      cash_received = mirrored covers_payment p.cash_received;
      change_given = mirrored covers_payment p.change_given;
      created_by = manager;
    }

-- The loop over the payments of the order, with what is left to refund.
unfoldable pub refund_rows : Text → ℤ → List Payment → List Payment
refund_rows manager remaining [] = []
refund_rows manager remaining (p ∷ ps) =
    let skip = leb_ℤ p.amount (pos 0) || leb_ℤ remaining (pos 0) in
    let amount = min_ℤ p.amount remaining in
    let rest = refund_rows manager (if skip then remaining else remaining -ℤ amount) ps in
    if skip then rest else refund_row manager amount p ∷ rest

unfoldable pub refund_paid_order : Text → Text → Option Text → Db → Result PaymentError Db
refund_paid_order org id pin_holder db = do
  manager ← need pin_holder invalid_pin
  order ← order_for_update org id db
  refuse (same_status order.status cancelled) order_cancelled
  refuse (not (is_some order.paid_at) && not (has_text order.payment_method)) not_paid
  refuse (leb_ℤ (paid_sum_for id db) (pos 0)) no_refundable_balance
  ok (
      insert_payments (refund_rows manager (paid_sum_for id db) (payments_of id db))
        (update_order id (set_status cancelled) db))

-- `order.paymentMethod || 'cash'`.
unfoldable pub refund_method : Option Text → Text
refund_method none = codes "cash"
refund_method (some []) = codes "cash"
refund_method (some (c ∷ cs)) = c ∷ cs

abbrev pub negative_row : Text → Text → ℤ → Order → Payment
negative_row manager id amount order = record {
  order_id = id;
  method = refund_method order.payment_method;
  amount = neg amount;
  tip_amount = pos 0;
  cash_received = none;
  change_given = none;
  created_by = manager;
}

unfoldable pub refund_partial_order : Text → Text → Option Text → ℤ → Db → Result PaymentError Db
refund_partial_order org id pin_holder amount db = do
  manager ← need pin_holder invalid_pin
  order ← order_for_update org id db
  refuse (same_status order.status cancelled) order_cancelled
  refuse (not (is_some order.paid_at)) not_paid
  refuse (ltb_ℤ (paid_sum_for id db) amount) exceeds_balance
  ok (insert_payments (negative_row manager id amount order ∷ []) db)
