-- ===== src/Orders/Create/Laws.antt =====
-- What the creation of an order at the register leaves.
use antd_platform.Prelude.{
  ℕ, ◌+◌, ◌≤◌, ◌≡◌, refl, sym, ◌∙◌, subst, arith, Bool, Option, none, some, List, [], ◌∷◌, ◌++◌,
  map, Text, text_eq, text_eq_iff, ok, inl, inr, find, get_or, sum_of, Option-cases, Result-cases,
  ◌&&◌,
}
use antd_platform.Prelude.Int.{pos, pos_part}
use antd_platform.Status.{confirmed}
use antd_platform.Database.{Order, find_order, items_subtotal}
use antd_platform.Money.{Discount}
use antd_platform.Pricing.Cart.{ResolvedCartItem, price_cart_items, taxable_subtotal}
use antd_platform.Pricing.Cart.Laws.{amount_of, price_cart_items-ArePriced}
use antd_platform.Pricing.Discounts.{given, resolve_discount}
use antd_platform.Pricing.Locations.{Location, next_ticket_number}
use antd_platform.Pricing.Stock.{decrement_stock}
use antd_platform.Shop.{Shop, Customer}
use antd_platform.Orders.Edit.{require_customer}
use antd_platform.Orders.StatusWrites.{find_by_id}
use antd_platform.Orders.Create.{
  PosOrderDto, pos_tender, location_of, points_of, check_redemption, pos_order, first_course,
  customer_for, write_pos_order, create_new,
}
use antd_platform.Orders.Create.Tender.{pos_tender-IsBalanced}

pub find-snoc :
    (org id : Text) (os : List Order) (new : Order)
    → find (λ o. text_eq o.id id) os ≡ none
    → new.id ≡ id
    → new.organization_id ≡ org
    → find (λ o. text_eq o.id id && text_eq o.organization_id org) (os ++ (new ∷ [])) ≡ some new
find-snoc org id [] new h same own =
    ground (arith, text_eq_iff new.id id, text_eq_iff new.organization_id org)
find-snoc org id (o ∷ os) new h same own = ground (arith, find-snoc org id os new)

first_course-subtotal :
    (now : ℕ) (by_course : Bool) (items : List ResolvedCartItem)
    → items_subtotal (map (first_course now by_course) items) ≡ sum_of amount_of items
unfolding items_subtotal first_course
first_course-subtotal now by_course [] = refl
first_course-subtotal now by_course (i ∷ items) =
    omega (arith, first_course-subtotal now by_course items)

-- What a creation leaves: the new order last among the orders, its amounts, and the stock.
pub record Created (now : ℕ) (id org role : Text) (dto : PosOrderDto) (shop shop' : Shop)
    : Type 0 where
  pub order : Order
  pub items : List ResolvedCartItem
  pub discount : Option Discount
  pub priced : price_cart_items shop.menu org dto.items ≡ ok (items, order.subtotal)
  pub discounted :
      resolve_discount shop.discounts org role dto.discount_id dto.promo_code ≡ ok discount
  pub added : shop'.db.orders ≡ shop.db.orders ++ (order ∷ [])
  pub is : find_order org id shop'.db ≡ some order
  pub is_confirmed : order.status ≡ confirmed
  pub lines_are : order.items ≡ map (first_course now dto.by_course) items
  pub subtotal_is : order.subtotal ≡ items_subtotal order.items
  pub total_is :
      order.total_amount + order.loyalty_points_redeemed + order.discount_amount
      ≡ order.subtotal + order.service_charge_amount + order.tax_amount + order.tip_amount
  pub discount_within : order.discount_amount ≤ order.subtotal
  pub points_within :
      order.loyalty_points_redeemed ≤ points_of (given dto.customer_id) shop.customers
  pub stock_taken : shop'.menu ≡ decrement_stock shop.menu items
  pub ledger_kept : shop'.db.payments ≡ shop.db.payments
  pub ticket_is : order.ticket_number ≡ next_ticket_number shop.db.orders dto.location_id
  pub id_is : order.id ≡ id
  pub own : order.organization_id ≡ org
  pub client_id_is : order.client_order_id ≡ dto.client_order_id
  pub placed : order.location_id ≡ some dto.location_id

check_redemption-le :
    (customer : Option Text) (points : ℕ) (customers : List Customer)
    → check_redemption customer points customers ≡ ok tt
    → points ≤ points_of customer customers
unfolding check_redemption
check_redemption-le customer points customers h = ground arith

-- The writes, from what the guards established.
write_pos_order-Created :
    (now : ℕ) (id new_customer org role : Text) (dto : PosOrderDto) (shop : Shop) (l : Location)
    (items : List ResolvedCartItem) (subtotal : ℕ) (d : Option Discount) (tip points : ℕ)
    → find_by_id id shop.db ≡ none
    → price_cart_items shop.menu org dto.items ≡ ok (items, subtotal)
    → resolve_discount shop.discounts org role dto.discount_id dto.promo_code ≡ ok d
    → points ≤ points_of (given dto.customer_id) shop.customers
    → Created now id org role dto shop (
        write_pos_order now id new_customer org dto d
          (pos_tender subtotal (taxable_subtotal items) d l dto.apply_service_charge tip points)
          items
          shop)
unfolding write_pos_order pos_order find_by_id find_order pos_tender
write_pos_order-Created now id new_customer org role dto shop l items subtotal d tip points fresh
      priced discounted enough =
    let t = pos_tender subtotal (taxable_subtotal items) d l dto.apply_service_charge tip points in
    let balanced =
      pos_tender-IsBalanced subtotal (taxable_subtotal items) d l dto.apply_service_charge tip
        points in
    let named = customer_for new_customer org dto shop.customers in
    let order =
      pos_order now id org dto named.1 d t (next_ticket_number shop.db.orders dto.location_id)
        items in
    record {
      order = order;
      items = items;
      discount = d;
      priced = priced;
      discounted = discounted;
      added = refl;
      is = find-snoc org id shop.db.orders order fresh refl refl;
      is_confirmed = refl;
      lines_are = refl;
      subtotal_is =
          (price_cart_items-ArePriced shop.menu org dto.items items subtotal priced).1
          ∙ sym (first_course-subtotal now dto.by_course items);
      total_is = balanced.total_is;
      discount_within = balanced.discount_within;
      points_within = omega (arith, balanced.redemption_within, enough);
      stock_taken = refl;
      ledger_kept = refl;
      ticket_is = refl;
      id_is = refl;
      own = refl;
      client_id_is = refl;
      placed = refl;
    }

pub create_new-Created :
    (now : ℕ) (id new_customer org role : Text) (dto : PosOrderDto) (shop shop' : Shop)
    → find_by_id id shop.db ≡ none
    → create_new now id new_customer org role dto shop ≡ ok shop'
    → Created now id org role dto shop shop'
unfolding create_new
create_new-Created now id new_customer org role dto shop shop' fresh h =
    let points = pos_part (get_or dto.redeem_points (pos 0)) in
    let tip = pos_part (get_or dto.tip_amount (pos 0)) in
    elim (Option-cases (location_of org dto.location_id shop.locations)) [
      | inl e ↦ absurd (ground arith)
      | inr (l, e) ↦ elim (Result-cases (require_customer org (given dto.customer_id) shop)) [
        | inr (x, f) ↦ absurd (ground arith)
        | inl (tt, f) ↦
            elim (Result-cases (check_redemption (given dto.customer_id) points shop.customers)) [
              | inr (x, g) ↦ absurd (ground arith)
              | inl (tt, g) ↦ elim (Result-cases (price_cart_items shop.menu org dto.items)) [
                | inr (x, k) ↦ absurd (ground arith)
                | inl ((items, subtotal), k) ↦
                    elim (Result-cases
                      (resolve_discount shop.discounts org role dto.discount_id dto.promo_code)) [
                        | inr (x, m) ↦ absurd (ground arith)
                        | inl (d, m) ↦
                            let t =
                              pos_tender subtotal (taxable_subtotal items) d l
                                dto.apply_service_charge tip points in
                            let written : write_pos_order now id new_customer org dto d t items shop
                                ≡ shop' =
                              ground arith in
                            subst (Created now id org role dto shop) written (
                              write_pos_order-Created now id new_customer org role dto shop l items
                                subtotal d tip points fresh k m (check_redemption-le _ _ _ g))
                      ]
              ]
            ]
      ]
    ]
