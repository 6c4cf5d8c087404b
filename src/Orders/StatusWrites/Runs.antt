-- ===== src/Orders/StatusWrites/Runs.antt =====
-- Sequences of status requests for one order through the dashboard's endpoint.
use antd_platform.Prelude.{
  ℕ, suc, ◌+◌, ◌≤◌, ◌<◌, ◌≡◌, ◌≢◌, refl, inl, inr, ◌⊎◌, ◌∙◌, true, some, List, [], ◌∷◌, Text, ok,
  err, arith, Result-cases, sym, subst,
}
use antd_platform.Status.{
  OrderStatus, pending, confirmed, preparing, ready, refunded, can_transition_order_status,
}
use antd_platform.Database.{Order, Db, find_order}
use antd_platform.Database.Laws.{find_order-update_order}
use antd_platform.Orders.StatusWrites.{update_order_status, set_status}
use antd_platform.Orders.StatusWrites.Laws.{
  update_order_status-inv, manual_status-ne-refunded, set_status-KeepsKeys,
}

-- The tables after a sequence of requests, and how many of them were accepted.
pub requests : Text → Text → List Text → Db → Db × ℕ
requests org id [] db = (db, 0)
requests org id (s ∷ ss) db = elim (update_order_status org id s db) [
  | ok db' ↦ let (last, n) = requests org id ss db' in (last, suc n)
  | err e ↦ requests org id ss db
]

-- How many requests an order has used up at least.
abbrev pub effort : OrderStatus → ℕ
effort pending = 0
effort confirmed = 1
effort preparing = 2
effort ready = 3
effort _ = 4

effort-transition :
    (s t : OrderStatus)
    → t ≢ refunded
    → can_transition_order_status s t ≡ true
    → effort s < effort t
unfolding can_transition_order_status
effort-transition s t manual legal = ground arith

effort-le : (s : OrderStatus) → effort s ≤ 4
effort-le s = ground arith

accepted_effort :
    (org id s : Text) (db db' : Db) (o : Order)
    → find_order org id db ≡ some o
    → update_order_status org id s db ≡ ok db'
    → (t : OrderStatus) × (find_order org id db' ≡ some (set_status t o))
      × (effort o.status < effort t)
      × (t ≢ refunded)
accepted_effort org id s db db' o found h =
    let (t, p, chosen, found', legal, e) = update_order_status-inv org id s db db' h in
    let same : p ≡ o = cc in
    let manual = manual_status-ne-refunded s t chosen in
    (
      t,
      rw e (find_order-update_order id (set_status t) (set_status-KeepsKeys t) org db found),
      effort-transition o.status t manual
          (subst (λ q. can_transition_order_status q.status t ≡ true) same legal),
      manual,
    )

-- Whatever texts a client sends for an order, at most four of the requests are accepted (fewer if
-- the order is already on its way); and none of them makes an order refunded.
pub requests_bounded :
    (org id : Text) (texts : List Text) (db : Db) (o : Order)
    → find_order org id db ≡ some o
    → (o' : Order) × (find_order org id (requests org id texts db).0 ≡ some o')
      × ((requests org id texts db).1 + effort o.status ≤ 4)
      × ((o'.status ≡ o.status) ⊎ (o'.status ≢ refunded))
unfolding requests
requests_bounded org id [] db o found = (o, found, omega (arith, effort-le o.status), inl refl)
requests_bounded org id (s ∷ ss) db o found =
    elim (Result-cases (update_order_status org id s db)) [
      | inl (db', accepted) ↦
          let (t, found', more, manual) = accepted_effort org id s db db' o found accepted in
          let (o', last, bound, keeps) = requests_bounded org id ss db' (set_status t o) found' in
          rw (accepted, requests)
            (
              o',
              last,
              omega arith,
              inr (elim keeps [ inl e ↦ λ r. manual (sym e ∙ r) | inr n ↦ n ]),
            )
      | inr (e, rejected) ↦ rw (rejected, requests) (requests_bounded org id ss db o found)
    ]
