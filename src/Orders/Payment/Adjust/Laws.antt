-- ===== src/Orders/Payment/Adjust/Laws.antt =====
-- What an adjustment leaves.
use antd_platform.Prelude.{
  ℕ, ◌+◌, ◌≤◌, ◌≡◌, ◌≢◌, refl, subst, ap, ◌∙◌, arith, Text, text_eq_refl, Option, none, some, List,
  [], ◌∷◌, ◌++◌, ok, true, All, if◌then◌else◌, Option-cases, Result-cases, inl, inr, Bool-cases,
  map,
}
use antd_platform.Prelude.Int.{
  ℤ, pos, neg, ◌+ℤ◌, ◌-ℤ◌, int_laws, sum_ℤ, ltb_ℤ, -ℤ_parts, eq_of_parts,
}
use antd_platform.Database.{Order, Db, find_order, update_order, payments_of, insert_payments}
use antd_platform.Database.Laws.{
  KeepsKeys, find_order-update_order, find_order-update_order_ne, payments_of-insert_payments,
  payments_of-update_order, payments_of-insert_payments_ne, find_order-insert_payments, IsFor,
  filter-IsFor, filter-IsFor_ne,
}
use antd_platform.Pricing.Cart.{Menu, LineDto, ResolvedCartItem, price_cart_items}
use antd_platform.Pricing.Locations.{Location, get_tax_rate}
use antd_platform.Orders.Payment.{order_for_update, paid_sum_for, min_ℤ}
use antd_platform.Orders.Payment.Sums.{paid_sum-append}
use antd_platform.Orders.Payment.Refund.{negative_row}
use antd_platform.Orders.Payment.Adjust.{
  Tender, snapshot_discount, adjusted_tender, adjusted_item, apply_adjustment, refund_excess,
  write_adjustment, adjust_order_items,
}

snapshot_discount-le : (amount subtotal : ℕ) → snapshot_discount amount subtotal ≤ subtotal
unfolding snapshot_discount
snapshot_discount-le amount subtotal = ground arith

-- The smaller of what was paid and the new total.
abbrev pub capped : ℤ → ℕ → ℤ
capped net_paid total = if ltb_ℤ (pos total) net_paid then pos total else net_paid

back :
    (net : ℤ) (total : ℕ)
    → ltb_ℤ (pos total) net ≡ true
    → net +ℤ (neg (min_ℤ net (net -ℤ pos total)) +ℤ pos 0) ≡ pos total
back net total h =
    let e : min_ℤ net (net -ℤ pos total) ≡ net -ℤ pos total =
      ground (arith, -ℤ_parts net (pos total), eq_of_parts net (net -ℤ pos total)) in
    rw e (omega int_laws)

refund_excess-capped :
    (manager id : Text) (total : ℕ) (order : Order) (db db1 : Db)
    → payments_of id db1 ≡ payments_of id db
    → paid_sum_for id (refund_excess manager id (paid_sum_for id db) total order db1)
      ≡ capped (paid_sum_for id db) total
unfolding refund_excess paid_sum_for
refund_excess-capped manager id total order db db1 same =
    elim (Bool-cases (ltb_ℤ (pos total) (paid_sum_for id db))) [
      | inr e ↦ rw e (ap (sum_ℤ (λ p. p.amount)) same)
      | inl e ↦
          let net = paid_sum_for id db in
          let row = negative_row manager id (min_ℤ net (net -ℤ pos total)) order in
          let own : All (IsFor id) (row ∷ []) = (text_eq_refl id, tt) in
          let ledger =
            payments_of-insert_payments id (row ∷ []) db1 (filter-IsFor id (row ∷ []) own)
            ∙ ap (λ ps. ps ++ (row ∷ [])) same in
          rw e (
            paid_sum-append id db (insert_payments (row ∷ []) db1) (row ∷ []) ledger
            ∙ back net total e)
    ]

refund_excess-others :
    (manager id : Text) (net : ℤ) (total : ℕ) (order : Order) (db : Db) (j : Text)
    → j ≢ id
    → payments_of j (refund_excess manager id net total order db) ≡ payments_of j db
unfolding refund_excess
refund_excess-others manager id net total order db j ne =
    elim (Bool-cases (ltb_ℤ (pos total) net)) [
      | inr e ↦ rw e
      | inl e ↦
          let row = negative_row manager id (min_ℤ net (net -ℤ pos total)) order in
          let own : All (IsFor id) (row ∷ []) = (text_eq_refl id, tt) in
          rw e (
            payments_of-insert_payments_ne j (row ∷ []) db (filter-IsFor_ne id j (row ∷ []) ne own))
    ]

refund_excess-orders :
    (manager id : Text) (net : ℤ) (total : ℕ) (order : Order) (db : Db) (org j : Text)
    → find_order org j (refund_excess manager id net total order db) ≡ find_order org j db
unfolding refund_excess
refund_excess-orders manager id net total order db org j =
    elim (Bool-cases (ltb_ℤ (pos total) net)) [
      | inr e ↦ rw e
      | inl e ↦ rw e (
          find_order-insert_payments org j
            (negative_row manager id (min_ℤ net (net -ℤ pos total)) order ∷ []) db)
    ]

apply_adjustment-KeepsKeys :
    (t : Tender) (items : List ResolvedCartItem) (net : ℤ)
    → KeepsKeys (apply_adjustment t items net)
unfolding apply_adjustment
apply_adjustment-KeepsKeys t items net = record {
  id_kept = λ o. refl;
  organization_kept = λ o. refl;
}

-- What an adjustment leaves of the order and of the ledger.
pub record Adjusted (org id : Text) (db db' : Db) (items : List ResolvedCartItem) (subtotal : ℕ)
    : Type 0 where
  pub before : Order
  pub after : Order
  pub was : find_order org id db ≡ some before
  pub is : find_order org id db' ≡ some after
  pub items_replaced : after.items ≡ map adjusted_item items
  pub subtotal_is : after.subtotal ≡ subtotal
  pub discount_within : after.discount_amount ≤ subtotal
  pub tip_kept : after.tip_amount ≡ before.tip_amount
  pub total_is :
      after.total_amount + after.discount_amount
      ≡ after.subtotal + after.tax_amount + after.tip_amount
  pub ledger_capped : paid_sum_for id db' ≡ capped (paid_sum_for id db) after.total_amount
  pub reopened :
      after.paid_at
      ≡ (if ltb_ℤ (paid_sum_for id db) (pos after.total_amount) then none else before.paid_at)
  pub other_orders : (j : Text) → j ≢ id → find_order org j db' ≡ find_order org j db
  pub other_payments : (j : Text) → j ≢ id → payments_of j db' ≡ payments_of j db

adjustment_written :
    (org manager id : Text) (items : List ResolvedCartItem) (subtotal rate discount : ℕ)
    (pre locked : Order) (db : Db)
    → find_order org id db ≡ some locked
    → discount ≤ subtotal
    → Adjusted org id db
        (write_adjustment manager id
          (adjusted_tender subtotal discount rate locked.tip_amount)
          items
          pre
          db)
        items
        subtotal
unfolding write_adjustment apply_adjustment adjusted_tender
adjustment_written org manager id items subtotal rate discount pre locked db found within =
    let t = adjusted_tender subtotal discount rate locked.tip_amount in
    let net = paid_sum_for id db in
    let change = apply_adjustment t items net in
    let keeps = apply_adjustment-KeepsKeys t items net in
    let db1 = update_order id change db in
    record {
      before = locked;
      after = change locked;
      was = found;
      is =
          refund_excess-orders manager id net t.total_amount pre db1 org id
          ∙ find_order-update_order id change keeps org db found;
      items_replaced = refl;
      subtotal_is = refl;
      discount_within = within;
      tip_kept = refl;
      total_is = omega arith;
      ledger_capped =
          refund_excess-capped manager id t.total_amount pre db db1
            (payments_of-update_order id id change db);
      reopened = refl;
      other_orders = λ j ne.
          refund_excess-orders manager id net t.total_amount pre db1 org j
          ∙ find_order-update_order_ne id change keeps org j db ne;
      other_payments = λ j ne.
          refund_excess-others manager id net t.total_amount pre db1 j ne
          ∙ payments_of-update_order id j change db;
    }

-- An adjustment that succeeds was priced from the menu; it replaces the items; the new
-- total is subtotal less discount plus tax plus the tip, which is kept; what is recorded as paid is cut
-- down to the new total if it was more, and is unchanged if it was not; the order counts as unpaid again
-- exactly when less than the new total was paid; and no other order or payment changes.
pub adjust_order_items-Adjusted :
    (org id : Text) (pin_holder : Option Text) (menu : Menu) (rates : List Location)
    (lines : List LineDto) (db0 db db' : Db)
    → adjust_order_items org id pin_holder menu rates lines db0 db ≡ ok db'
    → (items : List ResolvedCartItem) × (subtotal : ℕ) × (price_cart_items menu org lines
        ≡ ok (items, subtotal))
      × Adjusted org id db db' items subtotal
unfolding adjust_order_items order_for_update
adjust_order_items-Adjusted org id none menu rates lines db0 db db' h = absurd (ground arith)
adjust_order_items-Adjusted org id (some manager) menu rates lines db0 db db' h =
    elim (Option-cases (find_order org id db0)) [
      | inl e ↦ absurd (ground arith)
      | inr (o, e) ↦ elim (Result-cases (price_cart_items menu org lines)) [
        | inr (x, f) ↦ absurd (ground arith)
        | inl ((items, subtotal), f) ↦ elim (Option-cases (find_order org id db)) [
          | inl g ↦ absurd (ground arith)
          | inr (locked, g) ↦
              let discount = snapshot_discount o.discount_amount subtotal in
              let rate = get_tax_rate rates o.location_id in
              let written : write_adjustment manager id
                    (adjusted_tender subtotal discount rate locked.tip_amount) items o db
                  ≡ db' =
                ground arith in
              (
                items,
                subtotal,
                f,
                subst (λ d. Adjusted org id db d items subtotal) written
                    (adjustment_written org manager id items subtotal rate discount o locked db g
                      (snapshot_discount-le o.discount_amount subtotal)),
              )
        ]
      ]
    ]
