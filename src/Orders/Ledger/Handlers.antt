-- ===== src/Orders/Ledger/Handlers.antt =====
-- What each handler does to the bounds of the order that it is about.
use antd_platform.Prelude.{
  ℕ, ◌≡◌, ◌≢◌, sym, ap, ◌∙◌, subst, arith, Bool, Option, some, List, Text, text_eq, text_eq_iff,
  inl, inr, Bool-cases, filter,
}
use antd_platform.Prelude.Int.{ℤ, pos, ◌≤ℤ◌, ◌+ℤ◌, sum_ℤ, int_laws, ltb_ℤ}
use antd_platform.Database.{Order, Db, find_order, payments_of}
use antd_platform.Pricing.Cart.{LineDto, ResolvedCartItem}
use antd_platform.Shop.{Shop}
use antd_platform.Orders.Ledger.{InBounds}
use antd_platform.Orders.StatusWrites.Laws.{Written, Follows, stays, moves}
use antd_platform.Orders.Payment.{Receipt, paid_sum_for}
use antd_platform.Orders.Payment.Record.{Paid}
use antd_platform.Orders.Payment.Refund.Laws.{Refunded, PartlyRefunded}
use antd_platform.Orders.Payment.Adjust.Laws.{Adjusted, capped}
use antd_platform.Orders.Edit.{OrderPatch}
use antd_platform.Orders.Edit.Laws.{Appended}
use antd_platform.Orders.Edit.Replace.{Replaced}
use antd_platform.Orders.Fire.Laws.{Fired}

-- What is left alone stays in bounds.
pub untouched :
    (org id : Text) (db db' : Db)
    → find_order org id db' ≡ find_order org id db
    → payments_of id db' ≡ payments_of id db
    → InBounds org id db
    → InBounds org id db'
unfolding paid_sum_for
untouched org id db db' orders payments b =
    let sums : paid_sum_for id db' ≡ paid_sum_for id db = ap (sum_ℤ (λ p. p.amount)) payments in
    record {
      order = b.order;
      is = orders ∙ b.is;
      not_negative = rw sums b.not_negative;
      not_over = rw sums b.not_over;
    }

-- A step on one order, seen from any order.
pub elsewhere :
    (org id j : Text) (db db' : Db)
    → ((k : Text) → k ≢ id → find_order org k db' ≡ find_order org k db)
    → ((k : Text) → k ≢ id → payments_of k db' ≡ payments_of k db)
    → (InBounds org id db → InBounds org id db')
    → InBounds org j db
    → InBounds org j db'
elsewhere org id j db db' orders payments here b = elim (Bool-cases (text_eq j id)) [
  | inl e ↦
      let same : j ≡ id = (text_eq_iff j id).0 e in
      subst (λ k. InBounds org k db') (sym same) (here (subst (λ k. InBounds org k db) same b))
  | inr e ↦
      let ne : j ≢ id = λ same. ground (arith, text_eq_iff j id) in
      untouched org j db db' (orders j ne) (payments j ne) b
]

pub same_payments :
    (db db' : Db) (k : Text) → db'.payments ≡ db.payments → payments_of k db' ≡ payments_of k db
unfolding payments_of
same_payments db db' k e = ap (filter (λ p. text_eq p.order_id k)) e

-- A step that writes no payment keeps what is paid.
same_sum :
    (db db' : Db) (id : Text)
    → db'.payments ≡ db.payments
    → paid_sum_for id db' ≡ paid_sum_for id db
unfolding paid_sum_for
same_sum db db' id e = ap (sum_ℤ (λ p. p.amount)) (same_payments db db' id e)

sum_nonneg : (a b : ℤ) → pos 0 ≤ℤ a → pos 1 ≤ℤ b → pos 0 ≤ℤ a +ℤ b
sum_nonneg a b h k = omega int_laws

left_nonneg : (x a : ℤ) → a ≤ℤ x +ℤ a → pos 0 ≤ℤ x
left_nonneg x a h = omega int_laws

left_below : (x a : ℤ) (n : ℕ) → pos 1 ≤ℤ a → x +ℤ a ≤ℤ pos n → x ≤ℤ pos n
left_below x a n least h = omega int_laws

pub Paid-InBounds :
    (now : ℕ) (org id : Text) (db db' : Db) (r : Receipt)
    → Paid now org id db db' r
    → InBounds org id db
    → InBounds org id db'
Paid-InBounds now org id db db' r p b = record {
  order = p.after;
  is = p.is;
  not_negative = rw p.ledger_grows (sum_nonneg _ _ b.not_negative p.something_paid);
  not_over = p.never_over;
}

pub Refunded-InBounds : (org id : Text) (db db' : Db) → Refunded org id db db' → InBounds org id db'
Refunded-InBounds org id db db' r = record {
  order = _;
  is = r.now_cancelled;
  not_negative = rw r.nothing_left (omega arith);
  not_over = rw r.nothing_left (omega arith);
}

pub PartlyRefunded-InBounds :
    (org id : Text) (amount : ℤ) (db db' : Db)
    → pos 1 ≤ℤ amount
    → PartlyRefunded org id amount db db'
    → InBounds org id db
    → InBounds org id db'
PartlyRefunded-InBounds org id amount db db' least p b = record {
  order = b.order;
  is = p.same_orders id ∙ b.is;
  not_negative = left_nonneg _ amount (subst (λ q. amount ≤ℤ q) (sym p.ledger_falls) p.within);
  not_over =
      left_below _ amount b.order.total_amount least
        (subst (λ q. q ≤ℤ pos b.order.total_amount) (sym p.ledger_falls) b.not_over);
}

pub Adjusted-InBounds :
    (org id : Text) (db db' : Db) (items : List ResolvedCartItem) (subtotal : ℕ)
    → Adjusted org id db db' items subtotal
    → InBounds org id db
    → InBounds org id db'
Adjusted-InBounds org id db db' items subtotal a b =
    let net : ℤ = paid_sum_for id db in
    let least : pos 0 ≤ℤ net = b.not_negative in
    let capped_is : paid_sum_for id db' ≡ capped net a.after.total_amount = a.ledger_capped in
    elim (Bool-cases (ltb_ℤ (pos a.after.total_amount) net)) [
      | inl e ↦
          let cut : paid_sum_for id db' ≡ pos a.after.total_amount = ground arith in
          record {
            order = a.after;
            is = a.is;
            not_negative = rw cut (omega arith);
            not_over = rw cut (omega arith);
          }
      | inr e ↦
          let kept : paid_sum_for id db' ≡ net = ground arith in
          let below : net ≤ℤ pos a.after.total_amount = ground arith in
          record {
            order = a.after;
            is = a.is;
            not_negative = rw kept least;
            not_over = rw kept below;
          }
    ]

-- A step that keeps the payments, of an order with nothing paid or a total that stays.
same-InBounds :
    (org id : Text) (db db' : Db) (after : Order)
    → find_order org id db' ≡ some after
    → db'.payments ≡ db.payments
    → paid_sum_for id db ≤ℤ pos after.total_amount
    → InBounds org id db
    → InBounds org id db'
same-InBounds org id db db' after is kept over b = record {
  order = after;
  is = is;
  not_negative = rw (same_sum db db' id kept) b.not_negative;
  not_over = rw (same_sum db db' id kept) over;
}

Follows-total : (o o' : Order) → Follows o o' → o'.total_amount ≡ o.total_amount
Follows-total o o' (stays e) = ap (λ (p : Order). p.total_amount) e
Follows-total o o' (moves t legal e) = ap (λ (p : Order). p.total_amount) e

-- The order in bounds is the one that the step found.
total_found :
    (org id : Text) (db : Db) (o : Order) (b : InBounds org id db)
    → find_order org id db ≡ some o
    → paid_sum_for id db ≤ℤ pos o.total_amount
total_found org id db o b found =
    let same : b.order ≡ o = cc in
    subst (λ (p : Order). paid_sum_for id db ≤ℤ pos p.total_amount) same b.not_over

pub Written-InBounds :
    (org id : Text) (db db' : Db) → Written org id db db' → InBounds org id db → InBounds org id db'
Written-InBounds org id db db' w b =
    let total = Follows-total w.before w.after w.follows in
    let over = total_found org id db w.before b w.was in
    same-InBounds org id db db' w.after w.is w.payments_kept (rw total over) b

pub Fired-InBounds :
    (now course : ℕ) (org id : Text) (db db' : Db) (flag : Bool)
    → Fired now course org id db db' flag
    → InBounds org id db
    → InBounds org id db'
Fired-InBounds now course org id db db' flag f b =
    same-InBounds org id db db' f.after f.is f.payments_kept
      (rw f.total_kept (total_found org id db f.before b f.was)) b

below_any : (x : ℤ) (n : ℕ) → x ≤ℤ pos 0 → x ≤ℤ pos n
below_any x n h = omega arith

pub Appended-InBounds :
    (org id : Text) (m : Option Text) (lines : List LineDto) (shop shop' : Shop)
    → Appended org id m lines shop shop'
    → InBounds org id shop.db
    → InBounds org id shop'.db
Appended-InBounds org id m lines shop shop' a b =
    same-InBounds org id shop.db shop'.db a.after a.is a.payments_kept
      (below_any _ a.after.total_amount a.was_open.2) b

pub Replaced-InBounds :
    (org role id : Text) (patch : OrderPatch) (lines : List LineDto) (earlier shop shop' : Shop)
    (current : Order)
    → shop'.db.payments ≡ shop.db.payments
    → paid_sum_for id shop.db ≡ paid_sum_for id earlier.db
    → Replaced org role id patch lines earlier shop shop' current
    → InBounds org id shop.db
    → InBounds org id shop'.db
Replaced-InBounds org role id patch lines earlier shop shop' current kept same a b =
    same-InBounds org id shop.db shop'.db a.after a.is kept
      (rw same (below_any _ a.after.total_amount a.was_open.2)) b
