-- ===== src/Orders/Ledger/Invariant.antt =====
-- Every step keeps every order within its bounds.
use antd_platform.Prelude.{
  ◌++◌, [], ◌∷◌, List, find, Bool, some, text_eq, ◌&&◌, ◌∙◌, inl, inr, sym, ap, arith, ◌≡◌, ◌≢◌,
  subst, Text,
}
use antd_platform.Database.{Order, find_order, Db, payments_of}
use antd_platform.Pricing.Discounts.{given}
use antd_platform.Shop.{Shop}
use antd_platform.Orders.Ledger.{
  creates, phones, delivers, Step, pays, refunds, refunds_part, adjusts, appends, replaces, fires,
  sets_status, advances, Steps, done, then, InBounds,
}
use antd_platform.Orders.StatusWrites.Laws.{
  update_order_status-Written, advance_native_status-Written,
}
use antd_platform.Orders.Payment.Record.{record_payment-Paid}
use antd_platform.Orders.Payment.Refund.Laws.{
  refund_paid_order-Refunded, refund_partial_order-PartlyRefunded,
}
use antd_platform.Orders.Payment.Adjust.Laws.{adjust_order_items-Adjusted}
use antd_platform.Orders.Edit.Laws.{append_order_items-Appended}
use antd_platform.Orders.Edit.Replace.{update_order_items-Replaced, update_order_items-others}
use antd_platform.Orders.Create.Requests.{create_pos_order-Answered}
use antd_platform.Orders.Fire.Laws.{fire_course-Fired}
use antd_platform.Orders.Channels.Laws.{
  create_order_for_org-Answered, create_marketplace_order-added,
}
use antd_platform.Orders.Ledger.Handlers.{
  untouched, elsewhere, same_payments, Paid-InBounds, Refunded-InBounds, PartlyRefunded-InBounds,
  Adjusted-InBounds, Written-InBounds, Fired-InBounds, Appended-InBounds, Replaced-InBounds,
}

kept_elsewhere :
    (id : Text) (db db' : Db)
    → db'.payments ≡ db.payments
    → (k : Text) → k ≢ id
    → payments_of k db' ≡ payments_of k db
kept_elsewhere id db db' e k ne = same_payments db db' k e

-- A row that is found is found before the rows that are added.
find-append :
    (p : Order → Bool) (os more : List Order) (o : Order)
    → find p os ≡ some o
    → find p (os ++ more) ≡ some o
find-append p [] more o h = absurd (ground arith)
find-append p (x ∷ os) more o h = ground (arith, find-append p os more o)

-- A new order, last among the orders, leaves the others' bounds.
grown-InBounds :
    (org j : Text) (db db' : Db) (new : Order)
    → db'.orders ≡ db.orders ++ (new ∷ [])
    → db'.payments ≡ db.payments
    → InBounds org j db
    → InBounds org j db'
unfolding find_order
grown-InBounds org j db db' new added paid b =
    let kept : find (λ o. text_eq o.id j && text_eq o.organization_id org) db'.orders
        ≡ some b.order =
      rw added (find-append _ db.orders (new ∷ []) b.order b.is) in
    untouched org j db db' (kept ∙ sym b.is) (same_payments db db' j paid) b

Step-InBounds :
    (org j : Text) (db db' : Db) → Step org db db' → InBounds org j db → InBounds org j db'
Step-InBounds org j db db' (pays now user id dto r h) =
    let p = record_payment-Paid now org user id dto db db' r h in
    elsewhere org id j db db' p.other_orders p.other_payments (Paid-InBounds now org id db db' r p)
Step-InBounds org j db db' (refunds id pin_holder h) =
    let r = refund_paid_order-Refunded org id pin_holder db db' h in
    elsewhere org id j db db' r.other_orders r.other_payments
      (λ b. Refunded-InBounds org id db db' r)
Step-InBounds org j db db' (refunds_part id pin_holder amount least h) =
    let p = refund_partial_order-PartlyRefunded org id pin_holder amount db db' h in
    elsewhere org id j db db' (λ k ne. p.same_orders k) p.other_payments
      (PartlyRefunded-InBounds org id amount db db' least p)
Step-InBounds org j db db' (adjusts id pin_holder menu rates lines earlier h) =
    let (items, subtotal, priced, a) =
      adjust_order_items-Adjusted org id pin_holder menu rates lines earlier db db' h in
    elsewhere org id j db db' a.other_orders a.other_payments
      (Adjusted-InBounds org id db db' items subtotal a)
Step-InBounds org j db db' (appends role id m lines shop shop' before after h) =
    let a = append_order_items-Appended org role id m lines shop shop' h in
    subst (λ d. InBounds org j d → InBounds org j db') before
      (subst (λ d. InBounds org j shop.db → InBounds org j d) after
        (elsewhere org id j shop.db shop'.db a.other_orders
          (kept_elsewhere id shop.db shop'.db a.payments_kept)
          (Appended-InBounds org id (given m) lines shop shop' a)))
Step-InBounds org j db db' (replaces role id patch lines earlier shop shop' before after same h) =
    let (menu_kept, kept, others) =
      update_order_items-others org role id patch lines earlier shop shop' h in
    subst (λ d. InBounds org j d → InBounds org j db') before
      (subst (λ d. InBounds org j shop.db → InBounds org j d) after
        (elsewhere org id j shop.db shop'.db others (kept_elsewhere id shop.db shop'.db kept) (λ b.
          Replaced-InBounds org role id patch lines earlier shop shop' b.order kept same
            (update_order_items-Replaced org role id patch lines earlier shop shop' b.order b.is
              h).0
            b)))
Step-InBounds org j db db'
      (creates now id new_customer role answered dto shop shop' before after fresh h) =
    subst (λ d. InBounds org j d → InBounds org j db') before
      (subst (λ d. InBounds org j shop.db → InBounds org j d) after
        (elim (create_pos_order-Answered now id new_customer org role dto shop shop' answered fresh
          h) [
            | inl (o, found, a, same) ↦ λ b. subst (λ (s : Shop). InBounds org j s.db) (sym same) b
            | inr (none_yet, a, c) ↦
                grown-InBounds org j shop.db shop'.db c.order c.added c.ledger_kept
          ]))
Step-InBounds org j db db' (phones id answered dto shop shop' before after fresh h) =
    subst (λ d. InBounds org j d → InBounds org j db') before
      (subst (λ d. InBounds org j shop.db → InBounds org j d) after
        (elim (create_order_for_org-Answered id org dto shop shop' answered fresh h) [
          | inl (o, found, a, same) ↦ λ b. subst (λ (s : Shop). InBounds org j s.db) (sym same) b
          | inr (none_yet, a, c) ↦
              grown-InBounds org j shop.db shop'.db c.order
                (ap (λ (s : Shop). s.db.orders) c.all_else_kept)
                (ap (λ (s : Shop). s.db.payments) c.all_else_kept)
        ]))
Step-InBounds org j db db' (delivers id new_customer answered dto shop shop' before after h) =
    subst (λ d. InBounds org j d → InBounds org j db') before
      (subst (λ d. InBounds org j shop.db → InBounds org j d) after
        (elim (create_marketplace_order-added id new_customer org dto shop shop' answered h) [
          | inl same ↦ λ b. subst (λ (s : Shop). InBounds org j s.db) (sym same) b
          | inr (o, added, paid, ticket) ↦ grown-InBounds org j shop.db shop'.db o added paid
        ]))
Step-InBounds org j db db' (fires now id course m flag h) =
    elim (fire_course-Fired now org id course m db db' flag h) [
      | inl (old, same, none_fired) ↦ λ b. subst (InBounds org j) (sym same) b
      | inr (fresh, f) ↦
          elsewhere org id j db db' f.other_orders (kept_elsewhere id db db' f.payments_kept)
            (Fired-InBounds now course org id db db' flag f)
    ]
Step-InBounds org j db db' (sets_status id status h) =
    let w = (update_order_status-Written org id status db db' h).0 in
    elsewhere org id j db db' w.others (kept_elsewhere id db db' w.payments_kept)
      (Written-InBounds org id db db' w)
Step-InBounds org j db db' (advances id target h) =
    let w = advance_native_status-Written org id target db db' h in
    elsewhere org id j db db' w.others (kept_elsewhere id db db' w.payments_kept)
      (Written-InBounds org id db db' w)

-- Whatever new orders from the register, the telephone and marketplaces, payments, refunds, adjustments,
-- edits, fires and status changes an organization makes, on this order and on others, in any order: an
-- order that is paid neither below zero nor above its total stays so. Each request is one step, but that a
-- replacement of items reads earlier than it writes; no payment or refund of its order comes between.
pub Steps-InBounds :
    (org j : Text) (db db' : Db) → Steps org db db' → InBounds org j db → InBounds org j db'
Steps-InBounds org j db db' done b = b
Steps-InBounds org j db db' (then {db' = next} step steps) b =
    Steps-InBounds org j next db' steps (Step-InBounds org j db next step b)
