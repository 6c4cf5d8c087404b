-- ===== src/Orders/Payment.antt =====
-- apps/backend/src/orders/order-payment.service.ts: payments and refunds against an order. Each handler
-- is the transaction that the per-order advisory lock serializes, so it is one step on the tables; the
-- PIN check of the users service enters as its answer, the manager if there is one. Printing, audit
-- entries and realtime events are left out.
pub mod Sums
pub mod Record
pub mod Refund
pub mod Keyed
pub mod Adjust
use antd_platform.Prelude.{
  ℕ, ◌+◌, Bool, true, false, ◌&&◌, not, Option, none, some, List, [], ◌∷◌, map, Text, codes,
  text_eq, Result, ok, err, ◌>>=◌, ◌>>◌, require, refuse, need, if◌then◌else◌, is_some, get_or, any,
  find,
}
use antd_platform.Prelude.Int.{ℤ, pos, pos_part, ◌+ℤ◌, ◌-ℤ◌, leb_ℤ, ltb_ℤ, sum_ℤ}
use antd_platform.Status.{OrderStatus, pending, confirmed, cancelled, same_status}
use antd_platform.Database.{
  Order, Payment, Db, find_order, update_order, payments_of, insert_payments,
}

pub data PaymentError : Type 0 where
  order_not_found already_paid order_cancelled no_balance not_positive cash_too_small : PaymentError
  invalid_pin not_paid no_refundable_balance exceeds_balance in_flight : PaymentError

-- `getFullOrder` fails for an order that the organization does not have.
unfoldable pub full_order : Text → Text → Db → Result PaymentError Order
full_order org id db = need (find_order org id db) order_not_found

-- `orderForUpdate`, the read behind the lock.
unfoldable pub order_for_update : Text → Text → Db → Result PaymentError Order
order_for_update org id db = need (find_order org id db) order_not_found

-- `paidSumFor`: the sum of the amounts recorded against an order, refunds included.
unfoldable pub paid_sum_for : Text → Db → ℤ
paid_sum_for id db = sum_ℤ (λ p. p.amount) (payments_of id db)

-- `Math.min` on signed amounts.
abbrev pub min_ℤ : ℤ → ℤ → ℤ
min_ℤ a b = if leb_ℤ a b then a else b

-- `select distinct method`.
unfoldable pub distinct : List Text → List Text
distinct [] = []
distinct (m ∷ ms) = let rest = distinct ms in if any (text_eq m) rest then rest else m ∷ rest

unfoldable pub summary_method : Text → List Text → Text
summary_method method [] = method
summary_method method (m ∷ []) = m
summary_method method (m ∷ n ∷ rest) = codes "split"

pub record PaymentDto : Type 0 where
  pub method : Text
  pub amount : Option ℤ
  pub cash_received : Option ℤ
  pub tip_amount : Option ℤ

pub record Receipt : Type 0 where
  pub applied : ℤ
  pub change_given : Option ℤ
  pub remaining : ℤ
  pub paid : Bool

-- The cash handed over and the change, for a cash payment that names it.
unfoldable pub cash_details : PaymentDto → ℤ → Result PaymentError (Option ℤ × Option ℤ)
cash_details dto applied =
    if text_eq dto.method (codes "cash")
    then (elim dto.cash_received [
      | none ↦ ok (none, none)
      | some cash ↦
          if ltb_ℤ cash applied then err cash_too_small else ok (some cash, some (cash -ℤ applied))
    ])
    else ok (none, none)

-- What a payment writes into its order.
unfoldable pub apply_payment : ℕ → ℕ → Text → Bool → Order → Order
apply_payment now tip summary covers o = record o {
  tip_amount = o.tip_amount + tip;
  total_amount = o.total_amount + tip;
  payment_method = some summary;
  paid_at = if covers then some now else o.paid_at;
  status =
      if covers then (if same_status o.status pending then confirmed else o.status) else o.status;
}

-- The guards and amounts of a payment, from the order and what was paid before.
pub record Charge : Type 0 where
  pub tip : ℕ
  pub applied : ℤ
  pub cash_received : Option ℤ
  pub change_given : Option ℤ
  pub covers_total : Bool
  pub remaining : ℤ

unfoldable pub charge : PaymentDto → Order → ℤ → Result PaymentError Charge
unfolding cash_details
charge dto order prior_paid = do
  refuse (is_some order.paid_at) already_paid
  refuse (same_status order.status cancelled) order_cancelled
  let tip = pos_part (get_or dto.tip_amount (pos 0))
  let new_total = order.total_amount + tip
  let remaining_before = pos new_total -ℤ prior_paid
  refuse (leb_ℤ remaining_before (pos 0)) no_balance
  let requested = get_or dto.amount remaining_before
  refuse (leb_ℤ requested (pos 0)) not_positive
  let applied = min_ℤ requested remaining_before
  cash ← cash_details dto applied
  ok (record {
    tip = tip;
    applied = applied;
    cash_received = cash.0;
    change_given = cash.1;
    covers_total = leb_ℤ (pos new_total) (prior_paid +ℤ applied);
    remaining = pos new_total -ℤ prior_paid -ℤ applied;
  })

abbrev pub payment_row : Text → Text → PaymentDto → Charge → Payment
payment_row user id dto c = record {
  order_id = id;
  method = dto.method;
  amount = c.applied;
  tip_amount = pos c.tip;
  cash_received = c.cash_received;
  change_given = c.change_given;
  created_by = user;
}

-- The inserted row and the order that it changes.
unfoldable pub write_payment : ℕ → Text → Text → PaymentDto → Charge → Db → Db
write_payment now user id dto c db =
    let paid_db = insert_payments (payment_row user id dto c ∷ []) db in
    let summary =
      summary_method dto.method (distinct (map (λ p. p.method) (payments_of id paid_db))) in
    update_order id (apply_payment now c.tip summary c.covers_total) paid_db

unfoldable pub record_payment :
    ℕ → Text → Text → Text → PaymentDto → Db → Result PaymentError (Db × Receipt)
record_payment now org user id dto db = do
  full ← full_order org id db
  order ← order_for_update org id db
  c ← charge dto order (paid_sum_for id db)
  ok (
    write_payment now user id dto c db,
    record {
      applied = c.applied;
      change_given = c.change_given;
      remaining = c.remaining;
      paid = c.covers_total;
    },
  )

-- `payOrder` pays the whole remaining balance.
unfoldable pub pay_order :
    ℕ → Text → Text → Text → Text → Option ℤ → Db → Result PaymentError (Db × Receipt)
pay_order now org user id payment_method tip_amount db =
    record_payment now org user id
      (record {
        method = payment_method;
        amount = none;
        cash_received = none;
        tip_amount = tip_amount;
      })
      db
