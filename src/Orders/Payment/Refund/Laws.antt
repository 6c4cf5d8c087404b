-- ===== src/Orders/Payment/Refund/Laws.antt =====
-- What refunds do to the ledger.
use antd_platform.Prelude.{
  ◌≡◌, ◌≢◌, sym, subst, ap, ◌∙◌, arith, Text, text_eq_refl, Option, none, some, List, [], ◌∷◌, ◌++◌,
  ok, err, is_some, true, false, All, Option-cases, inl, inr,
}
use antd_platform.Prelude.Int.{ℤ, pos, ◌+ℤ◌, ◌≤ℤ◌, int_laws, sum_ℤ}
use antd_platform.Status.{cancelled, same_status}
use antd_platform.Database.{
  Order, Payment, Db, find_order, update_order, payments_of, insert_payments,
}
use antd_platform.Database.Laws.{
  find_order-update_order, find_order-update_order_ne, payments_of-insert_payments,
  payments_of-update_order, payments_of-insert_payments_ne, find_order-insert_payments, IsFor,
  filter-IsFor, filter-IsFor_ne, payments_of-IsFor,
}
use antd_platform.Orders.StatusWrites.{set_status}
use antd_platform.Orders.StatusWrites.Laws.{set_status-KeepsKeys}
use antd_platform.Orders.Payment.{order_cancelled, order_for_update, paid_sum_for}
use antd_platform.Orders.Payment.Sums.{paid_sum-append}
use antd_platform.Orders.Payment.Refund.{
  refund_rows, refund_paid_order, refund_partial_order, negative_row,
}
use antd_platform.Orders.Payment.Refund.Rows.{
  amount_of, sum-le-positive_sum, refund_rows-sum, ReversesSome, refund_rows-ReversesSome,
  refund_rows-IsFor,
}

-- What a full refund leaves.
pub record Refunded (org id : Text) (db db' : Db) : Type 0 where
  pub before : Order
  pub rows : List Payment
  pub was : find_order org id db ≡ some before
  pub was_live : same_status before.status cancelled ≡ false
  pub now_cancelled : find_order org id db' ≡ some (set_status cancelled before)
  pub nothing_left : paid_sum_for id db' ≡ pos 0
  pub ledger : payments_of id db' ≡ payments_of id db ++ rows
  pub reverses : ReversesSome (payments_of id db) rows
  pub other_orders : (j : Text) → j ≢ id → find_order org j db' ≡ find_order org j db
  pub other_payments : (j : Text) → j ≢ id → payments_of j db' ≡ payments_of j db

refund_paid_order-inv :
    (org id : Text) (pin_holder : Option Text) (db db' : Db)
    → refund_paid_order org id pin_holder db ≡ ok db'
    → (o : Order) × (manager : Text) × (find_order org id db ≡ some o)
      × (same_status o.status cancelled ≡ false)
      × (pos 1 ≤ℤ paid_sum_for id db)
      × (db'
          ≡ insert_payments
              (refund_rows manager (paid_sum_for id db) (payments_of id db))
              (update_order id (set_status cancelled) db))
unfolding refund_paid_order order_for_update
refund_paid_order-inv org id none db db' h = absurd (ground arith)
refund_paid_order-inv org id (some manager) db db' h = elim (Option-cases (find_order org id db)) [
  | inl e ↦ absurd (ground arith)
  | inr (o, e) ↦ (o, manager, e, ground arith, ground arith, ground arith)
]

cancels :
    (manager : Text) (ps : List Payment)
    → let total = sum_ℤ amount_of ps in
      pos 1 ≤ℤ total → total +ℤ sum_ℤ amount_of (refund_rows manager total ps) ≡ pos 0
cancels manager ps low =
    let total = sum_ℤ amount_of ps in
    rw (refund_rows-sum manager total ps (omega arith) (sum-le-positive_sum ps)) (omega int_laws)

refund_written :
    (org id manager : Text) (db : Db) (o : Order)
    → find_order org id db ≡ some o
    → same_status o.status cancelled ≡ false
    → pos 1 ≤ℤ paid_sum_for id db
    → Refunded org id db (
        insert_payments
          (refund_rows manager (paid_sum_for id db) (payments_of id db))
          (update_order id (set_status cancelled) db))
unfolding paid_sum_for
refund_written org id manager db o found live some_paid =
    let rows = refund_rows manager (paid_sum_for id db) (payments_of id db) in
    let moved = update_order id (set_status cancelled) db in
    let keeps = set_status-KeepsKeys cancelled in
    let for_id =
      refund_rows-IsFor id manager (paid_sum_for id db) (payments_of id db)
        (payments_of-IsFor id db) in
    let ledger : payments_of id (insert_payments rows moved) ≡ payments_of id db ++ rows =
      payments_of-insert_payments id rows moved (filter-IsFor id rows for_id)
      ∙ ap (λ ps. ps ++ rows) (payments_of-update_order id id (set_status cancelled) db) in
    record {
      before = o;
      rows = rows;
      was = found;
      was_live = live;
      now_cancelled =
          find_order-insert_payments org id rows moved
          ∙ find_order-update_order id (set_status cancelled) keeps org db found;
      nothing_left =
          paid_sum-append id db (insert_payments rows moved) rows ledger
          ∙ cancels manager (payments_of id db) some_paid;
      ledger = ledger;
      reverses = refund_rows-ReversesSome manager (paid_sum_for id db) (payments_of id db);
      other_orders = λ j ne.
          find_order-insert_payments org j rows moved
          ∙ find_order-update_order_ne id (set_status cancelled) keeps org j db ne;
      other_payments = λ j ne.
          payments_of-insert_payments_ne j rows moved (filter-IsFor_ne id j rows ne for_id)
          ∙ payments_of-update_order id j (set_status cancelled) db;
    }

-- A full refund that succeeds cancels the order, leaves a ledger that adds up to zero, and does so by
-- rows that each take back part or all of one earlier payment by the same method; no other order or
-- payment changes.
pub refund_paid_order-Refunded :
    (org id : Text) (pin_holder : Option Text) (db db' : Db)
    → refund_paid_order org id pin_holder db ≡ ok db'
    → Refunded org id db db'
refund_paid_order-Refunded org id pin_holder db db' h =
    let (o, manager, found, live, some_paid, written) =
      refund_paid_order-inv org id pin_holder db db' h in
    subst (Refunded org id db) (sym written)
      (refund_written org id manager db o found live some_paid)

-- After a full refund no refund of the order goes through, full or partial, whoever enters a PIN.
pub refund_once :
    (org id : Text) (pin_holder : Option Text) (again : Text) (amount : ℤ) (db db' : Db)
    → refund_paid_order org id pin_holder db ≡ ok db'
    → (refund_paid_order org id (some again) db' ≡ err order_cancelled)
      × (refund_partial_order org id (some again) amount db' ≡ err order_cancelled)
refund_once org id pin_holder again amount db db' h =
    let r = refund_paid_order-Refunded org id pin_holder db db' h in
    (
      unfold refund_paid_order order_for_update in rw r.now_cancelled,
      unfold refund_partial_order order_for_update in rw r.now_cancelled,
    )

-- What a partial refund leaves.
pub record PartlyRefunded (org id : Text) (amount : ℤ) (db db' : Db) : Type 0 where
  pub before : Order
  pub was : find_order org id db ≡ some before
  pub was_paid : is_some before.paid_at ≡ true
  pub within : amount ≤ℤ paid_sum_for id db
  pub ledger_falls : paid_sum_for id db' +ℤ amount ≡ paid_sum_for id db
  pub same_orders : (j : Text) → find_order org j db' ≡ find_order org j db
  pub other_payments : (j : Text) → j ≢ id → payments_of j db' ≡ payments_of j db

refund_partial_order-inv :
    (org id : Text) (pin_holder : Option Text) (amount : ℤ) (db db' : Db)
    → refund_partial_order org id pin_holder amount db ≡ ok db'
    → (o : Order) × (manager : Text) × (find_order org id db ≡ some o)
      × (is_some o.paid_at ≡ true)
      × (amount ≤ℤ paid_sum_for id db)
      × (db' ≡ insert_payments (negative_row manager id amount o ∷ []) db)
unfolding refund_partial_order order_for_update
refund_partial_order-inv org id none amount db db' h = absurd (ground arith)
refund_partial_order-inv org id (some manager) amount db db' h =
    elim (Option-cases (find_order org id db)) [
      | inl e ↦ absurd (ground arith)
      | inr (o, e) ↦ (o, manager, e, ground arith, ground arith, ground arith)
    ]

partly_written :
    (org id manager : Text) (amount : ℤ) (db : Db) (o : Order)
    → find_order org id db ≡ some o
    → is_some o.paid_at ≡ true
    → amount ≤ℤ paid_sum_for id db
    → PartlyRefunded org id amount db (insert_payments (negative_row manager id amount o ∷ []) db)
partly_written org id manager amount db o found paid within =
    let row = negative_row manager id amount o in
    let db' = insert_payments (row ∷ []) db in
    let for_id : All (IsFor id) (row ∷ []) = (text_eq_refl id, tt) in
    let ledger = payments_of-insert_payments id (row ∷ []) db (filter-IsFor id (row ∷ []) for_id) in
    record {
      before = o;
      was = found;
      was_paid = paid;
      within = within;
      ledger_falls = rw (paid_sum-append id db db' (row ∷ []) ledger) (omega int_laws);
      same_orders = λ j. find_order-insert_payments org j (row ∷ []) db;
      other_payments = λ j ne.
          payments_of-insert_payments_ne j (row ∷ []) db
            (filter-IsFor_ne id j (row ∷ []) ne for_id);
    }

-- A partial refund that succeeds was of a paid order and within what is recorded as paid, net of earlier
-- refunds; the ledger falls by just that amount, and no order and no other payment changes.
pub refund_partial_order-PartlyRefunded :
    (org id : Text) (pin_holder : Option Text) (amount : ℤ) (db db' : Db)
    → refund_partial_order org id pin_holder amount db ≡ ok db'
    → PartlyRefunded org id amount db db'
refund_partial_order-PartlyRefunded org id pin_holder amount db db' h =
    let (o, manager, found, paid, within, written) =
      refund_partial_order-inv org id pin_holder amount db db' h in
    subst (PartlyRefunded org id amount db) (sym written)
      (partly_written org id manager amount db o found paid within)
