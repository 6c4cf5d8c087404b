-- ===== src/Orders/Channels/Laws.antt =====
-- What an order by telephone or from a marketplace leaves, and what a second delivery does.
use antd_platform.Prelude.{
  sum_of, map, Option, ◌*◌, ◌<◌, ◌/◌, All, ℕ, ◌+◌, ◌≡◌, ◌⊎◌, inl, inr, refl, sym, ap, ◌∙◌, subst,
  arith, Option-cases, none, some, List, [], ◌∷◌, ◌++◌, Text, ok, Result-cases,
}
use antd_platform.Status.{pending}
use antd_platform.Database.{Order, OrderItem, Snapshot, find_order, items_subtotal}
use antd_platform.Money.{rate_of}
use antd_platform.Pricing.Cart.{Menu, MenuItem, menu_item_of}
use antd_platform.Pricing.Cart.Options.{IsOnSale, menu_item_of-inv}
use antd_platform.Orders.Create.Tickets.{Apart, apart, max_ticket-top, no_ticket-Apart}
use antd_platform.Pricing.Discounts.{given}
use antd_platform.Pricing.Locations.{get_tax_rate, next_ticket_number, max_ticket}
use antd_platform.Shop.{Shop}
use antd_platform.Orders.StatusWrites.{find_by_id}
use antd_platform.Orders.Create.{replay_of, find_by_client_order_id, resolve_customer_id_by_phone}
use antd_platform.Orders.Create.Laws.{find-snoc}
use antd_platform.Orders.Create.Requests.{replay-snoc}
use antd_platform.Orders.Channels.{
  spoken_row, request_snapshot, SpokenItem, SpokenOrder, price_spoken, spoken_location,
  spoken_order, ticket_at, add_order, create_spoken, create_order_for_org, MarketplaceOrder,
  marketplace_order, create_delivered, create_marketplace_order,
}

-- The priced rows cost what was added up.
price_spoken-subtotal :
    (menu : Menu) (org : Text) (items : List SpokenItem) (rows : List OrderItem) (n : ℕ)
    → price_spoken menu org items ≡ ok (rows, n)
    → n ≡ items_subtotal rows
unfolding price_spoken items_subtotal
price_spoken-subtotal menu org [] rows n h = ground arith
price_spoken-subtotal menu org (i ∷ items) rows n h =
    elim (Option-cases (menu_item_of menu org i.menu_item_id)) [
      | inl e ↦ absurd (ground arith)
      | inr (m, e) ↦ elim (Result-cases (price_spoken menu org items)) [
        | inr (x, f) ↦ absurd (ground arith)
        | inl ((rest, k), f) ↦ ground (arith, price_spoken-subtotal menu org items rest k f)
      ]
    ]

-- A row for what was heard: the asked item, on sale in the organization, at its price, and the requests,
-- which cost nothing.
pub record IsSpokenLine (menu : Menu) (org : Text) (i : SpokenItem) (row : OrderItem) : Type 0 where
  pub product : MenuItem
  pub on_sale : IsOnSale menu org product
  pub asked : product.id ≡ i.menu_item_id
  pub item_is : row.menu_item_id ≡ product.id
  pub price_is : row.price ≡ product.price
  pub quantity_is : row.quantity ≡ i.quantity
  pub requests_are : map (λ (s : Snapshot). s.option) row.modifiers ≡ i.modifiers
  pub requests_free : sum_of (λ (s : Snapshot). s.price_adjustment) row.modifiers ≡ 0

pub data AreSpokenLines (menu : Menu) (org : Text) : List SpokenItem → List OrderItem → Type 0 where
  none_left : AreSpokenLines menu org [] []
  one_more :
      {i : SpokenItem} {row : OrderItem} {items : List SpokenItem} {rows : List OrderItem}
      → IsSpokenLine menu org i row
      → AreSpokenLines menu org items rows
      → AreSpokenLines menu org (i ∷ items) (row ∷ rows)

requests-map :
    (names : List Text)
    → (map (λ (s : Snapshot). s.option) (map request_snapshot names) ≡ names)
      × (sum_of (λ (s : Snapshot). s.price_adjustment) (map request_snapshot names) ≡ 0)
requests-map [] = (refl, refl)
requests-map (n ∷ names) =
    let (same, free) = requests-map names in (ap (λ ns. n ∷ ns) same, omega (arith, free))

price_spoken-AreSpokenLines :
    (menu : Menu) (org : Text) (items : List SpokenItem) (rows : List OrderItem) (n : ℕ)
    → price_spoken menu org items ≡ ok (rows, n)
    → AreSpokenLines menu org items rows
unfolding price_spoken
price_spoken-AreSpokenLines menu org [] rows n h =
    let e : [] ≡ rows = ground arith in subst (AreSpokenLines menu org []) e none_left
price_spoken-AreSpokenLines menu org (i ∷ items) rows n h =
    elim (Option-cases (menu_item_of menu org i.menu_item_id)) [
      | inl e ↦ absurd (ground arith)
      | inr (m, e) ↦ elim (Result-cases (price_spoken menu org items)) [
        | inr (x, f) ↦ absurd (ground arith)
        | inl ((rest, k), f) ↦
            let whole : spoken_row i m.price ∷ rest ≡ rows = ground arith in
            let (same, on_sale) = menu_item_of-inv menu org i.menu_item_id m e in
            let (named, free) = requests-map i.modifiers in
            subst (AreSpokenLines menu org (i ∷ items)) whole (
              one_more
                (record {
                  product = m;
                  on_sale = on_sale;
                  asked = same;
                  item_is = sym same;
                  price_is = refl;
                  quantity_is = refl;
                  requests_are = named;
                  requests_free = free;
                })
                (price_spoken-AreSpokenLines menu org items rest k f))
      ]
    ]

-- The ticket of a new order is unlike those of its location.
pub ticket_at-Apart :
    (os : List Order) (location : Option Text) (new : Order)
    → new.ticket_number ≡ ticket_at os location
    → (location ≡ none) ⊎ (new.location_id ≡ location)
    → All (λ o. Apart o new) os
unfolding ticket_at next_ticket_number
ticket_at-Apart os none new number there = no_ticket-Apart new os number
ticket_at-Apart os (some l) new number (inl nowhere) = absurd (ground arith)
ticket_at-Apart os (some l) new number (inr there) =
    apart l new (max_ticket l os) os there (omega (arith, number)) (max_ticket-top l os)

ticket_at-positive : (os : List Order) (l : Text) → 0 < ticket_at os (some l)
unfolding ticket_at next_ticket_number
ticket_at-positive os l = omega arith

-- What a new order by telephone leaves: it is last among the orders, pending and unpaid, its lines are at
-- the menu's prices, it is taxed at the rate of its location, and nothing else changes.
pub record Spoken (id org : Text) (dto : SpokenOrder) (shop shop' : Shop) : Type 0 where
  pub order : Order
  pub all_else_kept : shop' ≡ add_order order shop
  pub is : find_order org id shop'.db ≡ some order
  pub is_pending : order.status ≡ pending
  pub is_unpaid : order.paid_at ≡ none
  pub lines_are : AreSpokenLines shop.menu org dto.items order.items
  pub subtotal_is : order.subtotal ≡ items_subtotal order.items
  pub placed : order.location_id ≡ spoken_location org dto shop
  pub ticket_new : All (λ o. Apart o order) shop.db.orders
  pub ticket_given : (l : Text) → order.location_id ≡ some l → 0 < order.ticket_number
  pub tax_is :
      order.tax_amount
      ≡ (order.subtotal * get_tax_rate shop.locations order.location_id + 5000) / 10000
  pub total_is : order.total_amount ≡ order.subtotal + order.tax_amount
  pub client_id_is : order.client_order_id ≡ dto.client_order_id

create_spoken-Spoken :
    (id org : Text) (dto : SpokenOrder) (shop shop' : Shop)
    → find_by_id id shop.db ≡ none
    → create_spoken id org dto shop ≡ ok shop'
    → Spoken id org dto shop shop'
unfolding create_spoken
create_spoken-Spoken id org dto shop shop' fresh h =
    elim (Result-cases (price_spoken shop.menu org dto.items)) [
      | inr (x, e) ↦ absurd (ground arith)
      | inl ((rows, n), e) ↦
          let location = spoken_location org dto shop in
          let order =
            spoken_order id org dto location (ticket_at shop.db.orders location) rows n
              (rate_of n (get_tax_rate shop.locations location)) in
          let written : add_order order shop ≡ shop' = ground arith in
          subst (Spoken id org dto shop) written (
            unfold spoken_order in
            record {
              order = order;
              all_else_kept = refl;
              is =
                  unfold find_by_id find_order in
                  find-snoc org id shop.db.orders order fresh refl refl;
              is_pending = refl;
              is_unpaid = refl;
              lines_are = price_spoken-AreSpokenLines shop.menu org dto.items rows n e;
              subtotal_is = price_spoken-subtotal shop.menu org dto.items rows n e;
              placed = refl;
              ticket_new = ticket_at-Apart shop.db.orders location order refl (inr refl);
              ticket_given = λ l there. rw there (ticket_at-positive shop.db.orders l);
              tax_is = unfold rate_of in refl;
              total_is = refl;
              client_id_is = refl;
            })
    ]

-- An earlier order of the same client id, or the new one.
abbrev pub SpokenAnswered : Text → Text → SpokenOrder → Shop → Shop → Text → Type 0
SpokenAnswered id org dto shop shop' answered =
    ((o : Order) × (replay_of org (given dto.client_order_id) shop.db ≡ some o)
      × (answered ≡ o.id)
      × (shop' ≡ shop))
    ⊎ ((replay_of org (given dto.client_order_id) shop.db ≡ none)
        × (answered ≡ id)
        × Spoken id org dto shop shop')

-- An order by telephone that is accepted answers the earlier order of its client id and changes nothing, or
-- adds exactly one order: pending, unpaid, with a line for each item that was heard, of a row of the menu that
-- is on sale and at its price; a subtotal that is the lines', the tax of its location on it and no more, and
-- a ticket that no other order of that location has. Stock, customers,
-- payments and the other orders stay as they were. The new id is not in use.
pub create_order_for_org-Answered :
    (id org : Text) (dto : SpokenOrder) (shop shop' : Shop) (answered : Text)
    → find_by_id id shop.db ≡ none
    → create_order_for_org id org dto shop ≡ ok (shop', answered)
    → SpokenAnswered id org dto shop shop' answered
unfolding create_order_for_org
create_order_for_org-Answered id org dto shop shop' answered fresh h =
    elim (Option-cases (replay_of org (given dto.client_order_id) shop.db)) [
      | inr (o, e) ↦ inl (o, e, ground arith, ground arith)
      | inl e ↦ elim (Result-cases (create_spoken id org dto shop)) [
        | inr (x, f) ↦ absurd (ground arith)
        | inl (s, f) ↦
            let same : s ≡ shop' = ground arith in
            inr (
              e,
              ground arith,
              subst (Spoken id org dto shop) same (create_spoken-Spoken id org dto shop s fresh f),
            )
      ]
    ]

marketplace_replay :
    (id new_customer org : Text) (dto : MarketplaceOrder) (i : OrderItem) (is : List OrderItem)
    (shop : Shop) (o : Order)
    → dto.items ≡ i ∷ is
    → find_by_client_order_id org dto.client_order_id shop.db ≡ some o
    → create_marketplace_order id new_customer org dto shop ≡ ok (shop, o.id)
unfolding create_marketplace_order
marketplace_replay id new_customer org dto i is shop o items found = ground arith

given-cases : (t : Option Text) → (given t ≡ none) ⊎ (t ≡ given t)
given-cases none = inl refl
given-cases (some []) = inl refl
given-cases (some (c ∷ cs)) = inr refl

-- A new order is found by its client id.
delivered-found :
    (id new_customer org : Text) (dto : MarketplaceOrder) (shop : Shop)
    → find_by_client_order_id org dto.client_order_id shop.db ≡ none
    → (o : Order) × (find_by_client_order_id org dto.client_order_id
          (create_delivered id new_customer org dto shop).db
        ≡ some o)
      × ((create_delivered id new_customer org dto shop).db.orders ≡ shop.db.orders ++ o ∷ [])
      × (o.id ≡ id)
      × (o.total_amount ≡ dto.total_amount)
      × (o.status ≡ pending)
      × All (λ p. Apart p o) shop.db.orders
unfolding create_delivered marketplace_order find_by_client_order_id
delivered-found id new_customer org dto shop e =
    let named =
      resolve_customer_id_by_phone new_customer org (some dto.customer_phone)
        (some dto.customer_name) shop.customers in
    let new =
      marketplace_order id org dto named.1 (ticket_at shop.db.orders (given dto.location_id)) in
    (
      new,
      replay-snoc org dto.client_order_id shop.db.orders new e refl refl,
      refl,
      refl,
      refl,
      refl,
      ticket_at-Apart shop.db.orders (given dto.location_id) new refl
          (elim (given-cases dto.location_id) [ inl h ↦ inl h | inr h ↦ inr h ]),
    )

-- After the delivery of a marketplace's order was accepted, every further delivery with the same client id
-- that has lines answers the same order and changes nothing, whatever it says; and the first added, if the
-- client id was new, exactly one order with the total that the marketplace gave.
pub create_marketplace_order-redelivered :
    (id id' new_customer new_customer' org : Text) (dto later : MarketplaceOrder) (i : OrderItem)
    (is : List OrderItem) (shop shop' : Shop) (answered : Text)
    → later.client_order_id ≡ dto.client_order_id
    → later.items ≡ i ∷ is
    → create_marketplace_order id new_customer org dto shop ≡ ok (shop', answered)
    → (create_marketplace_order id' new_customer' org later shop' ≡ ok (shop', answered))
      × ((shop' ≡ shop)
          ⊎ ((o : Order) × (shop'.db.orders ≡ shop.db.orders ++ o ∷ [])
              × (o.total_amount ≡ dto.total_amount)
              × (o.status ≡ pending)))
unfolding create_marketplace_order
create_marketplace_order-redelivered id id' new_customer new_customer' org dto later i is shop shop'
      answered same items h =
    elim (Option-cases (find_by_client_order_id org dto.client_order_id shop.db)) [
      | inr (o, e) ↦
          let kept : shop' ≡ shop = ground arith in
          let answer : answered ≡ o.id = ground arith in
          let found : find_by_client_order_id org later.client_order_id shop'.db ≡ some o =
            rw (same, kept) e in
          (
            marketplace_replay id' new_customer' org later i is shop' o items found
                ∙ ap (λ a. ok (shop', a)) (sym answer),
            inl kept,
          )
      | inl e ↦
          let (o, known, added, named, total, status, ticket) =
            delivered-found id new_customer org dto shop e in
          let made : create_delivered id new_customer org dto shop ≡ shop' = ground arith in
          let answer : answered ≡ id = ground arith in
          let found : find_by_client_order_id org later.client_order_id shop'.db ≡ some o =
            rw same (
              subst (λ (s : Shop). find_by_client_order_id org dto.client_order_id s.db ≡ some o)
                made known) in
          (
            marketplace_replay id' new_customer' org later i is shop' o items found
                ∙ ap (λ a. ok (shop', a)) (named ∙ sym answer),
            inr (
              o,
              subst (λ (s : Shop). s.db.orders ≡ shop.db.orders ++ o ∷ []) made added,
              total,
              status,
            ),
          )
    ]

-- A delivery that is accepted adds at most an order.
pub create_marketplace_order-added :
    (id new_customer org : Text) (dto : MarketplaceOrder) (shop shop' : Shop) (answered : Text)
    → create_marketplace_order id new_customer org dto shop ≡ ok (shop', answered)
    → (shop' ≡ shop)
      ⊎ ((o : Order) × (shop'.db.orders ≡ shop.db.orders ++ o ∷ [])
          × (shop'.db.payments ≡ shop.db.payments)
          × All (λ p. Apart p o) shop.db.orders)
unfolding create_marketplace_order
create_marketplace_order-added id new_customer org dto shop shop' answered h =
    elim (Option-cases (find_by_client_order_id org dto.client_order_id shop.db)) [
      | inr (o, e) ↦ inl (ground arith)
      | inl e ↦
          let (o, known, added, named, total, status, ticket) =
            delivered-found id new_customer org dto shop e in
          let made : create_delivered id new_customer org dto shop ≡ shop' = ground arith in
          let paid : (create_delivered id new_customer org dto shop).db.payments
              ≡ shop.db.payments =
            unfold create_delivered in refl in
          inr (
            o,
            subst (λ (s : Shop). s.db.orders ≡ shop.db.orders ++ o ∷ []) made added,
            subst (λ (s : Shop). s.db.payments ≡ shop.db.payments) made paid,
            ticket,
          )
    ]
