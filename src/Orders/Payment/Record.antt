-- ===== src/Orders/Payment/Record.antt =====
-- What a payment does to the ledger and to its order.
use antd_platform.Prelude.{
  Option-cases, Result-cases, inl, inr, ℕ, ◌+◌, ◌≡◌, ◌≢◌, ◌↔◌, refl, sym, subst, ap, ◌∙◌, arith,
  Text, text_eq, text_eq_refl, text_eq_iff, if◌then◌else◌, none, some, [], ◌∷◌, map, ok, get_or,
  leb→le, Bool, true, false, err,
}
use antd_platform.Prelude.Int.{
  ℤ, pos, ◌+ℤ◌, ◌-ℤ◌, ◌≤ℤ◌, int_laws, sum_ℤ, sum_ℤ-append, leb_ℤ, pos_part, neg_part, +ℤ_parts,
  -ℤ_parts, eq_of_parts,
}
use antd_platform.Status.{cancelled, same_status}
use antd_platform.Database.{Order, Payment, Db, find_order, payments_of, insert_payments}
use antd_platform.Database.Laws.{
  KeepsKeys, find_order-update_order, find_order-update_order_ne, payments_of-insert_payments,
  payments_of-update_order, payments_of-insert_payments_ne, find_order-insert_payments,
}
use antd_platform.Orders.Payment.{
  PaymentDto, Charge, Receipt, charge, record_payment, paid_sum_for, apply_payment, write_payment,
  payment_row, min_ℤ, full_order, order_for_update, summary_method, distinct, already_paid,
}

-- The amounts of an accepted payment: something positive is applied, never more than what is owed,
-- and the order counts as paid exactly when nothing remains.
pub record IsSound (dto : PaymentDto) (o : Order) (prior : ℤ) (c : Charge) : Type 0 where
  pub unpaid : o.paid_at ≡ none
  pub live : same_status o.status cancelled ≡ false
  pub positive : pos 1 ≤ℤ c.applied
  pub no_overpayment : prior +ℤ c.applied ≤ℤ pos (o.total_amount + c.tip)
  pub remaining_exact : c.remaining +ℤ (prior +ℤ c.applied) ≡ pos (o.total_amount + c.tip)
  pub covers : (c.covers_total ≡ true) ↔ (c.remaining ≡ pos 0)

amounts_sound :
    (total : ℕ) (prior requested : ℤ)
    → let owed = pos total -ℤ prior in
      let applied = min_ℤ requested owed in
      leb_ℤ owed (pos 0) ≡ false
      → leb_ℤ requested (pos 0) ≡ false
      → (pos 1 ≤ℤ applied)
        × (prior +ℤ applied ≤ℤ pos total)
        × (owed -ℤ applied +ℤ (prior +ℤ applied) ≡ pos total)
amounts_sound total prior requested some_owed some_asked =
    let owed = pos total -ℤ prior in
    ground (
      arith,
      -ℤ_parts (pos total) prior,
      +ℤ_parts prior (min_ℤ requested owed),
      -ℤ_parts owed (min_ℤ requested owed),
      +ℤ_parts (owed -ℤ min_ℤ requested owed) (prior +ℤ min_ℤ requested owed),
      eq_of_parts (owed -ℤ min_ℤ requested owed +ℤ (prior +ℤ min_ℤ requested owed)) (pos total),
    )

covers_iff :
    (total : ℕ) (paid remaining : ℤ)
    → remaining +ℤ paid ≡ pos total
    → paid ≤ℤ pos total
    → (leb_ℤ (pos total) paid ≡ true) ↔ (remaining ≡ pos 0)
covers_iff total paid remaining sum below =
    let parts = +ℤ_parts remaining paid in
    (
      λ h. omega (int_laws, ap pos_part sum, ap neg_part sum, leb→le _ _ h),
      λ e. ground (arith, parts),
    )

-- What `charge` computed, if it threw nothing.
record Computed (dto : PaymentDto) (o : Order) (prior : ℤ) (c : Charge) : Type 0 where
  unpaid : o.paid_at ≡ none
  live : same_status o.status cancelled ≡ false
  tip_is : c.tip ≡ pos_part (get_or dto.tip_amount (pos 0))
  owed_pos : leb_ℤ (pos (o.total_amount + c.tip) -ℤ prior) (pos 0) ≡ false
  asked_pos : leb_ℤ (get_or dto.amount (pos (o.total_amount + c.tip) -ℤ prior)) (pos 0) ≡ false
  applied_is :
      c.applied
      ≡ min_ℤ
          (get_or dto.amount (pos (o.total_amount + c.tip) -ℤ prior))
          (pos (o.total_amount + c.tip) -ℤ prior)
  covers_is : c.covers_total ≡ leb_ℤ (pos (o.total_amount + c.tip)) (prior +ℤ c.applied)
  remaining_is : c.remaining ≡ pos (o.total_amount + c.tip) -ℤ prior -ℤ c.applied

charge-Computed :
    (dto : PaymentDto) (o : Order) (prior : ℤ) (c : Charge)
    → charge dto o prior ≡ ok c
    → Computed dto o prior c
unfolding charge
charge-Computed dto o prior c h = ground arith

charge-IsSound :
    (dto : PaymentDto) (o : Order) (prior : ℤ) (c : Charge)
    → charge dto o prior ≡ ok c
    → IsSound dto o prior c
charge-IsSound dto o prior c h =
    let k = charge-Computed dto o prior c h in
    let (positive, bounded, exact) =
      amounts_sound (o.total_amount + c.tip) prior
        (get_or dto.amount (pos (o.total_amount + c.tip) -ℤ prior)) k.owed_pos k.asked_pos in
    let bounded' : prior +ℤ c.applied ≤ℤ pos (o.total_amount + c.tip) = rw k.applied_is bounded in
    let exact' : c.remaining +ℤ (prior +ℤ c.applied) ≡ pos (o.total_amount + c.tip) =
      rw (k.remaining_is, k.applied_is) exact in
    record {
      unpaid = k.unpaid;
      live = k.live;
      positive = rw k.applied_is positive;
      no_overpayment = bounded';
      remaining_exact = exact';
      covers =
          rw k.covers_is
            (covers_iff (o.total_amount + c.tip) (prior +ℤ c.applied) c.remaining exact' bounded');
    }

apply_payment-KeepsKeys :
    (now tip : ℕ) (summary : Text) (covers : Bool)
    → KeepsKeys (apply_payment now tip summary covers)
unfolding apply_payment
apply_payment-KeepsKeys now tip summary covers = record {
  id_kept = λ o. refl;
  organization_kept = λ o. refl;
}

-- The order behind a payment, before and after, and the ledger.
pub record Paid (now : ℕ) (org id : Text) (db db' : Db) (r : Receipt) : Type 0 where
  pub before : Order
  pub after : Order
  pub was : find_order org id db ≡ some before
  pub is : find_order org id db' ≡ some after
  pub was_unpaid : before.paid_at ≡ none
  pub something_paid : pos 1 ≤ℤ r.applied
  pub ledger_grows : paid_sum_for id db' ≡ paid_sum_for id db +ℤ r.applied
  pub never_over : paid_sum_for id db' ≤ℤ pos after.total_amount
  pub remaining_exact : r.remaining +ℤ paid_sum_for id db' ≡ pos after.total_amount
  pub paid_iff : (r.paid ≡ true) ↔ (r.remaining ≡ pos 0)
  pub stamped : after.paid_at ≡ (if r.paid then some now else none)
  pub tip_in_total : after.total_amount + before.tip_amount ≡ before.total_amount + after.tip_amount
  pub other_orders : (j : Text) → j ≢ id → find_order org j db' ≡ find_order org j db
  pub other_payments : (j : Text) → j ≢ id → payments_of j db' ≡ payments_of j db

paid_sum-write_payment :
    (now : ℕ) (user id : Text) (dto : PaymentDto) (c : Charge) (db : Db)
    → paid_sum_for id (write_payment now user id dto c db) ≡ paid_sum_for id db +ℤ c.applied
unfolding write_payment paid_sum_for
paid_sum-write_payment now user id dto c db =
    let row = payment_row user id dto c in
    rw
      (
        payments_of-update_order,
        payments_of-insert_payments id (row ∷ []) db (rw (text_eq_refl id)),
        sum_ℤ-append (λ (p : Payment). p.amount) (payments_of id db) (row ∷ []),
      )
      (ap (λ t. sum_ℤ (λ p. p.amount) (payments_of id db) +ℤ t) (omega int_laws))

text_ne : (a b : Text) → a ≢ b → text_eq a b ≡ false
text_ne a b h = ground (arith, text_eq_iff a b)

abbrev receipt_of : Charge → Receipt
receipt_of c = record {
  applied = c.applied;
  change_given = c.change_given;
  remaining = c.remaining;
  paid = c.covers_total;
}

record_payment-inv :
    (now : ℕ) (org user id : Text) (dto : PaymentDto) (db db' : Db) (r : Receipt)
    → record_payment now org user id dto db ≡ ok (db', r)
    → (o : Order) × (c : Charge) × (find_order org id db ≡ some o)
      × (charge dto o (paid_sum_for id db) ≡ ok c)
      × (db' ≡ write_payment now user id dto c db)
      × (r ≡ receipt_of c)
unfolding record_payment full_order order_for_update
record_payment-inv now org user id dto db db' r h = elim (Option-cases (find_order org id db)) [
  | inl e ↦ absurd (ground arith)
  | inr (o, e) ↦ elim (Result-cases (charge dto o (paid_sum_for id db))) [
    | inl (c, f) ↦ (o, c, e, f, ground arith, ground arith)
    | inr (x, f) ↦ absurd (ground arith)
  ]
]

write_payment-Paid :
    (now : ℕ) (org user id : Text) (dto : PaymentDto) (db : Db) (o : Order) (c : Charge)
    → find_order org id db ≡ some o
    → IsSound dto o (paid_sum_for id db) c
    → Paid now org id db (write_payment now user id dto c db) (receipt_of c)
unfolding write_payment apply_payment
write_payment-Paid now org user id dto db o c found s =
    let row = payment_row user id dto c in
    let paid_db = insert_payments (row ∷ []) db in
    let summary =
      summary_method dto.method (distinct (map (λ p. p.method) (payments_of id paid_db))) in
    let change = apply_payment now c.tip summary c.covers_total in
    let keeps = apply_payment-KeepsKeys now c.tip summary c.covers_total in
    let sum_is = paid_sum-write_payment now user id dto c db in
    record {
      before = o;
      after = change o;
      was = found;
      is =
          find_order-update_order id change keeps org paid_db
            (find_order-insert_payments org id (row ∷ []) db ∙ found);
      was_unpaid = s.unpaid;
      something_paid = s.positive;
      ledger_grows = sum_is;
      never_over = rw sum_is s.no_overpayment;
      remaining_exact = rw sum_is s.remaining_exact;
      paid_iff = s.covers;
      stamped = ap (λ old. if c.covers_total then some now else old) s.unpaid;
      tip_in_total = omega arith;
      other_orders = λ j ne.
          find_order-update_order_ne id change keeps org j paid_db ne
          ∙ find_order-insert_payments org j (row ∷ []) db;
      other_payments = λ j ne.
          payments_of-update_order id j change paid_db
          ∙ payments_of-insert_payments_ne j (row ∷ []) db (rw (text_ne id j (λ e. ne (sym e))));
    }

-- A payment that is accepted applies something positive and never more than what is owed: the ledger
-- grows by just the applied amount and stays within the order's new total, which is the old one with
-- the tip added; the order is stamped as paid exactly when nothing remains; an order that was already
-- paid is refused; and no other order or payment changes.
pub record_payment-Paid :
    (now : ℕ) (org user id : Text) (dto : PaymentDto) (db db' : Db) (r : Receipt)
    → record_payment now org user id dto db ≡ ok (db', r)
    → Paid now org id db db' r
record_payment-Paid now org user id dto db db' r h =
    let (o, c, found, charged, written, received) =
      record_payment-inv now org user id dto db db' r h in
    let sound = charge-IsSound dto o (paid_sum_for id db) c charged in
    subst (λ r. Paid now org id db db' r) (sym received)
      (subst (λ d. Paid now org id db d (receipt_of c)) (sym written)
        (write_payment-Paid now org user id dto db o c found sound))

min_same : (a : ℤ) → min_ℤ a a ≡ a
min_same a = ground arith

-- A payment that names no amount covers the order.
pub record_payment-paid :
    (now : ℕ) (org user id : Text) (dto : PaymentDto) (db db' : Db) (r : Receipt)
    → dto.amount ≡ none
    → record_payment now org user id dto db ≡ ok (db', r)
    → r.paid ≡ true
record_payment-paid now org user id dto db db' r whole h =
    let (o, c, found, charged, written, received) =
      record_payment-inv now org user id dto db db' r h in
    let k = charge-Computed dto o (paid_sum_for id db) c charged in
    let s = charge-IsSound dto o (paid_sum_for id db) c charged in
    let owed = pos (o.total_amount + c.tip) -ℤ paid_sum_for id db in
    let asked : get_or dto.amount owed ≡ owed = ap (λ a. get_or a owed) whole in
    let applied : c.applied ≡ owed = k.applied_is ∙ ap (λ a. min_ℤ a owed) asked ∙ min_same owed in
    let left : c.remaining ≡ pos 0 =
      k.remaining_is
      ∙ ap (λ a. owed -ℤ a) applied
      ∙ eq_of_parts (owed -ℤ owed) (pos 0) (omega (arith, -ℤ_parts owed owed)) in
    ap (λ (r : Receipt). r.paid) received ∙ s.covers.1 left

-- A payment of an order that is stamped as paid is refused, whatever it says.
pub record_payment-already_paid :
    (now paid : ℕ) (org user id : Text) (dto : PaymentDto) (db : Db) (o : Order)
    → find_order org id db ≡ some o
    → o.paid_at ≡ some paid
    → record_payment now org user id dto db ≡ err already_paid
unfolding record_payment full_order order_for_update charge
record_payment-already_paid now paid org user id dto db o found stamped = ground arith
