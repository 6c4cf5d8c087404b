-- ===== src/Orders/Create/Requests.antt =====
-- Whole requests to create an order: retries, and the numbers that the orders get.
use antd_platform.Prelude.{
  ℕ, ◌≡◌, ◌⊎◌, sym, ◌∙◌, subst, arith, false, none, some, List, [], ◌∷◌, ◌++◌, Text, text_eq,
  text_eq_refl, text_eq_iff, ok, inl, inr, find, Option-cases, Result-cases, ◌&&◌,
}
use antd_platform.Database.{Order}
use antd_platform.Pricing.Discounts.{given}
use antd_platform.Shop.{Shop}
use antd_platform.Orders.StatusWrites.{find_by_id}
use antd_platform.Orders.Create.{
  PosOrderDto, create_new, create_pos_order, replay_of, find_by_client_order_id,
}
use antd_platform.Orders.Create.Laws.{Created, create_new-Created}
use antd_platform.Orders.Create.Tickets.{HasTicketKeys, next_ticket_number-HasTicketKeys}

-- The request was a retry and the first order is answered, or the order is new.
abbrev pub Answered : ℕ → Text → Text → Text → PosOrderDto → Shop → Shop → Text → Type 0
Answered now id org role dto shop shop' answered =
    ((o : Order) × (replay_of org (given dto.client_order_id) shop.db ≡ some o)
      × (answered ≡ o.id)
      × (shop' ≡ shop))
    ⊎ ((replay_of org (given dto.client_order_id) shop.db ≡ none)
        × (answered ≡ id)
        × Created now id org role dto shop shop')

-- A request of the register that succeeds, with an id that no order has, answers the earlier order of
-- the same client id and changes nothing; or, where there is none, it adds exactly one order: confirmed,
-- with the priced lines, amounts that add up to its total, no more points redeemed than the
-- customer has, the stock taken, and no payment row.
pub create_pos_order-Answered :
    (now : ℕ) (id new_customer org role : Text) (dto : PosOrderDto) (shop shop' : Shop)
    (answered : Text)
    → find_by_id id shop.db ≡ none
    → create_pos_order now id new_customer org role dto shop ≡ ok (shop', answered)
    → Answered now id org role dto shop shop' answered
unfolding create_pos_order
create_pos_order-Answered now id new_customer org role dto shop shop' answered fresh h =
    elim (Option-cases (replay_of org (given dto.client_order_id) shop.db)) [
      | inr (o, e) ↦ inl (o, e, ground arith, ground arith)
      | inl e ↦ elim (Result-cases (create_new now id new_customer org role dto shop)) [
        | inr (x, f) ↦ absurd (ground arith)
        | inl (s, f) ↦
            let same : s ≡ shop' = ground arith in
            inr (
              e,
              ground arith,
              subst (Created now id org role dto shop) same
                  (create_new-Created now id new_customer org role dto shop s fresh f),
            )
      ]
    ]

-- Ticket numbers go on identifying the orders of a location, whatever is rung up.
pub create_pos_order-HasTicketKeys :
    (now : ℕ) (id new_customer org role : Text) (dto : PosOrderDto) (shop shop' : Shop)
    (answered : Text)
    → find_by_id id shop.db ≡ none
    → create_pos_order now id new_customer org role dto shop ≡ ok (shop', answered)
    → HasTicketKeys shop.db.orders
    → HasTicketKeys shop'.db.orders
create_pos_order-HasTicketKeys now id new_customer org role dto shop shop' answered fresh h keys =
    elim (create_pos_order-Answered now id new_customer org role dto shop shop' answered fresh h) [
      | inl (o, e, a, same) ↦ subst (λ (s : Shop). HasTicketKeys s.db.orders) (sym same) keys
      | inr (e, a, c) ↦ subst HasTicketKeys (sym c.added) (
          next_ticket_number-HasTicketKeys dto.location_id shop.db.orders c.order keys c.placed
            c.ticket_is)
    ]

pub replay-snoc :
    (org client_id : Text) (os : List Order) (new : Order)
    → find
        (λ o.
          text_eq o.organization_id org
          && (elim o.client_order_id [ none ↦ false | some c ↦ text_eq c client_id ]))
        os
      ≡ none
    → new.organization_id ≡ org
    → new.client_order_id ≡ some client_id
    → find
        (λ o.
          text_eq o.organization_id org
          && (elim o.client_order_id [ none ↦ false | some c ↦ text_eq c client_id ]))
        (os ++ (new ∷ []))
      ≡ some new
replay-snoc org client_id [] new h own named =
    ground (arith, text_eq_iff new.organization_id org, text_eq_refl client_id)
replay-snoc org client_id (o ∷ os) new h own named =
    ground (arith, replay-snoc org client_id os new)

-- The first order of a client id is found by it.
remembered :
    (now : ℕ) (id org role : Text) (dto : PosOrderDto) (shop shop' : Shop) (answered : Text) (c : ℕ)
    (cs : Text)
    → dto.client_order_id ≡ some (c ∷ cs)
    → Answered now id org role dto shop shop' answered
    → (o : Order) × (replay_of org (given dto.client_order_id) shop'.db ≡ some o)
      × (answered ≡ o.id)
unfolding replay_of find_by_client_order_id
remembered now id org role dto shop shop' answered c cs named (inl (o, e, a, same)) =
    (o, rw same e, a)
remembered now id org role dto shop shop' answered c cs named (inr (e, a, created)) = (
  created.order,
  rw (named, created.added)
      (replay-snoc org (c ∷ cs) shop.db.orders created.order (rw named at e) created.own
        (created.client_id_is ∙ named)),
  a ∙ sym created.id_is,
)

-- A retry of a request with a client id answers the same order and changes nothing, whenever it
-- comes and whatever ids would have been drawn for it.
pub create_retried :
    (now later : ℕ) (id id' new_customer new_customer' org role : Text) (dto : PosOrderDto) (c : ℕ)
    (cs : Text) (shop shop' : Shop) (answered : Text)
    → dto.client_order_id ≡ some (c ∷ cs)
    → find_by_id id shop.db ≡ none
    → create_pos_order now id new_customer org role dto shop ≡ ok (shop', answered)
    → create_pos_order later id' new_customer' org role dto shop' ≡ ok (shop', answered)
unfolding create_pos_order
create_retried now later id id' new_customer new_customer' org role dto c cs shop shop' answered
      named fresh h =
    let (o, found, same) =
      remembered now id org role dto shop shop' answered c cs named
        (create_pos_order-Answered now id new_customer org role dto shop shop' answered fresh h) in
    ground arith
