-- ===== src/Register/Wire/Retries.antt =====
-- The backend and a request that the register sends again.
use antd_platform.Prelude.{
  ℕ, ◌≡◌, refl, sym, ap, ◌∙◌, subst, arith, Option, none, some, List, [], ◌∷◌, map, Text, Result,
  ok, err, Bool,
}
use antd_platform.Prelude.Int.{ℤ}
use antd_platform.Database.{Order, Db, find_order}
use antd_platform.Cart.Delta.{DeltaItem}
use antd_platform.Shop.{Shop, OrderError}
use antd_platform.Orders.StatusWrites.{find_by_id}
use antd_platform.Orders.Payment as Pay
use antd_platform.Orders.Payment.{PaymentError, Receipt}
use antd_platform.Orders.Payment.Record.{
  record_payment-Paid, record_payment-paid, record_payment-already_paid,
}
use antd_platform.Orders.Edit as Edit
use antd_platform.Orders.Edit.Laws.{append_replayed}
use antd_platform.Orders.Fire as Fire
use antd_platform.Orders.Fire.Laws.{fire_course-replayed}
use antd_platform.Orders.Create as Create
use antd_platform.Orders.Create.{PosOrderDto}
use antd_platform.Orders.Create.Requests.{create_retried}
use antd_platform.Register.Wire.{
  Request, create_pos_order, append_order_items, fire_course, pay_order, accepted, rejected,
}
use antd_platform.Register.Wire.Backend.{
  handle, IsKeyed, answer_created, answer_appended, answer_fired, answer_paid, ticket_of, line_of,
}

created-inv :
    (org i : Text) (t : Option ℕ) (shop shop' : Shop) (r : Result OrderError (Shop × Text))
    → answer_created org shop r ≡ (shop', accepted i t)
    → (r ≡ ok (shop', i)) × (t ≡ ticket_of (find_order org i shop'.db))
unfolding answer_created
created-inv org i t shop shop' (ok (s, id)) h = (ground arith, ground arith)
created-inv org i t shop shop' (err e) h = absurd (ground arith)

appended-inv :
    (id i : Text) (t : Option ℕ) (shop shop' : Shop) (r : Result OrderError (Shop × Bool))
    → answer_appended id shop r ≡ (shop', accepted i t)
    → (flag : Bool) × (r ≡ ok (shop', flag)) × (i ≡ id) × (t ≡ none)
unfolding answer_appended
appended-inv id i t shop shop' (ok (s, flag)) h = (flag, ground arith, ground arith, ground arith)
appended-inv id i t shop shop' (err e) h = absurd (ground arith)

fired-inv :
    (id i : Text) (t : Option ℕ) (shop shop' : Shop) (r : Result OrderError (Db × Bool))
    → answer_fired id shop r ≡ (shop', accepted i t)
    → (flag : Bool) × (r ≡ ok (shop'.db, flag)) × (i ≡ id) × (t ≡ none)
unfolding answer_fired
fired-inv id i t shop shop' (ok (db, flag)) h =
    let same : record shop { db = db } ≡ shop' = ap (λ p. p.0) h in
    (flag, ap (λ (s : Shop). ok (s.db, flag)) same, ground arith, ground arith)
fired-inv id i t shop shop' (err e) h = absurd (ground arith)

paid-inv :
    (id i : Text) (t : Option ℕ) (shop shop' : Shop) (r : Result PaymentError (Db × Receipt))
    → answer_paid id shop r ≡ (shop', accepted i t)
    → (receipt : Receipt) × (r ≡ ok (shop'.db, receipt))
unfolding answer_paid
paid-inv id i t shop shop' (ok (db, receipt)) h =
    let same : record shop { db = db } ≡ shop' = ap (λ p. p.0) h in
    (receipt, ap (λ (s : Shop). ok (s.db, receipt)) same)
paid-inv id i t shop shop' (err e) h = absurd (ground arith)

module _ (fresh new_customer : Shop → Text) (org role user : Text) (now later : ℕ) where
  append-repeated :
      (id i : Text) (c : ℕ) (cs : Text) (items : List DeltaItem) (t : Option ℕ) (shop shop' : Shop)
      → handle fresh new_customer org role user now (append_order_items id (c ∷ cs) items) shop
        ≡ (shop', accepted i t)
      → handle fresh new_customer org role user later (append_order_items id (c ∷ cs) items) shop'
        ≡ (shop', accepted i t)
  unfolding handle
  append-repeated id i c cs [] t shop shop' h =
      absurd (unfold Edit.append_order_items answer_appended in (ground arith))
  append-repeated id i c cs (x ∷ items) t shop shop' h =
      let (flag, e, same, no_ticket) =
        appended-inv id i t shop shop'
          (Edit.append_order_items org role id (some (c ∷ cs)) (map line_of (x ∷ items)) shop) h in
      rw
        (
          append_replayed org role id c cs (line_of x) (line_of x) (map line_of items)
              (map line_of items) shop shop' flag e,
          same,
          no_ticket,
        )
        (unfold answer_appended in refl)

  fire-repeated :
      (id i : Text) (course c : ℕ) (cs : Text) (t : Option ℕ) (shop shop' : Shop)
      → handle fresh new_customer org role user now (fire_course id course (c ∷ cs)) shop
        ≡ (shop', accepted i t)
      → handle fresh new_customer org role user later (fire_course id course (c ∷ cs)) shop'
        ≡ (shop', accepted i t)
  unfolding handle
  fire-repeated id i course c cs t shop shop' h =
      let (flag, e, same, no_ticket) =
        fired-inv id i t shop shop' (Fire.fire_course now org id course (some (c ∷ cs)) shop.db)
          h in
      rw
        (fire_course-replayed now later org id course c cs shop.db shop'.db flag e, same, no_ticket)
        (unfold answer_fired in refl)

  -- A create, an append or a fire that the backend accepted and that arrives again, at any later time,
  -- changes nothing and gets the same answer, if the order's or the mutation's id in it is not empty; the
  -- ids that are drawn for new orders are new.
  pub handle-repeated :
      (r : Request) (i : Text) (t : Option ℕ) (shop shop' : Shop)
      → IsKeyed r
      → find_by_id (fresh shop) shop.db ≡ none
      → handle fresh new_customer org role user now r shop ≡ (shop', accepted i t)
      → handle fresh new_customer org role user later r shop' ≡ (shop', accepted i t)
  unfolding handle
  handle-repeated (create_pos_order dto) i t shop shop' (c, cs, named) unused h =
      let (e, ticket) =
        created-inv org i t shop shop'
          (Create.create_pos_order now (fresh shop) (new_customer shop) org role dto shop) h in
      rw
        (
          create_retried now later (fresh shop) (fresh shop') (new_customer shop)
              (new_customer shop') org role dto c cs shop shop' i named unused e,
          ticket,
        )
        (unfold answer_created in refl)
  handle-repeated (append_order_items id m items) i t shop shop' (c, cs, named) unused h =
      subst
        (λ m.
          handle fresh new_customer org role user later (append_order_items id m items) shop'
          ≡ (shop', accepted i t))
        (sym named)
        (append-repeated id i c cs items t shop shop' (
          subst
            (λ m.
              handle fresh new_customer org role user now (append_order_items id m items) shop
              ≡ (shop', accepted i t))
            named h))
  handle-repeated (fire_course id course m) i t shop shop' (c, cs, named) unused h =
      subst
        (λ m.
          handle fresh new_customer org role user later (fire_course id course m) shop'
          ≡ (shop', accepted i t))
        (sym named)
        (fire-repeated id i course c cs t shop shop' (
          subst
            (λ m.
              handle fresh new_customer org role user now (fire_course id course m) shop
              ≡ (shop', accepted i t))
            named h))
  handle-repeated (pay_order id method tip) i t shop shop' k unused h = absurd k

  -- A settle is not so: one that the backend accepted is refused with status 400 when it arrives again,
  -- though the order is stamped as paid.
  pub handle-settled :
      (id method : Text) (tip : Option ℤ) (i : Text) (t : Option ℕ) (shop shop' : Shop)
      → handle fresh new_customer org role user now (pay_order id method tip) shop
        ≡ (shop', accepted i t)
      → (handle fresh new_customer org role user later (pay_order id method tip) shop'
          ≡ (shop', rejected 400 []))
        × ((o : Order) × (find_order org id shop'.db ≡ some o) × (o.paid_at ≡ some now))
  unfolding handle
  handle-settled id method tip i t shop shop' h =
      let dto : Pay.PaymentDto = record {
        method = method;
        amount = none;
        cash_received = none;
        tip_amount = tip;
      } in
      let (r, e) =
        paid-inv id i t shop shop' (Pay.pay_order now org user id method tip shop.db) h in
      let whole : Pay.record_payment now org user id dto shop.db ≡ ok (shop'.db, r) =
        unfold Pay.pay_order in e in
      let p = record_payment-Paid now org user id dto shop.db shop'.db r whole in
      let full = record_payment-paid now org user id dto shop.db shop'.db r refl whole in
      let stamped : p.after.paid_at ≡ some now = p.stamped ∙ rw full in
      let again : Pay.pay_order later org user id method tip shop'.db ≡ err Pay.already_paid =
        unfold Pay.pay_order in
        record_payment-already_paid later now org user id dto shop'.db p.after p.is stamped in
      (rw again (unfold answer_paid in refl), (p.after, p.is, stamped))
