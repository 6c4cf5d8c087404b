-- ===== src/Orders/Edit/Replace.antt =====
-- Replacing the items of an open order.
use antd_platform.Prelude.{
  ◌+◌, ◌-◌, ap, subst, ◌≡◌, ◌≢◌, refl, arith, Option, none, some, List, [], ◌∷◌, map, Text, ok, inl,
  inr, Option-cases, Result-cases,
}
use antd_platform.Database.{Order, find_order, update_order, items_subtotal}
use antd_platform.Database.Laws.{KeepsKeys, find_order-update_order, find_order-update_order_ne}
use antd_platform.Money.{Discount, discount_amount_for, rate_of}
use antd_platform.Pricing.Cart.{LineDto, ResolvedCartItem, price_cart_items, order_item}
use antd_platform.Pricing.Cart.Laws.{price_cart_items-ArePriced}
use antd_platform.Pricing.Discounts.{given, resolve_discount}
use antd_platform.Pricing.Locations.{get_tax_rate}
use antd_platform.Shop.{Shop}
use antd_platform.Orders.Edit.{
  OrderPatch, check_editable, replace_items, Replacement, replacement_of, prepare_update,
  require_customer, update_order_items,
}
use antd_platform.Orders.Edit.Laws.{
  IsOpen, discount-le, rows-subtotal, editable, payments-update_order,
}

-- What a replacement leaves that read `earlier` and wrote to `shop`, where the order was `current`.
pub record Replaced (org role id : Text) (patch : OrderPatch) (lines : List LineDto)
    (earlier shop shop' : Shop) (current : Order) : Type 0 where
  pub before : Order
  pub after : Order
  pub items : List ResolvedCartItem
  pub discount : Option Discount
  pub was : find_order org id earlier.db ≡ some before
  pub is : find_order org id shop'.db ≡ some after
  pub was_open : IsOpen id before earlier.db
  pub priced : price_cart_items earlier.menu org lines ≡ ok (items, after.subtotal)
  pub discounted :
      resolve_discount earlier.discounts org role patch.discount_id patch.promo_code ≡ ok discount
  pub items_replaced : after.items ≡ map (order_item none) items
  pub subtotal_is : after.subtotal ≡ items_subtotal after.items
  pub discount_is : after.discount_amount ≡ discount_amount_for discount after.subtotal
  pub tax_is :
      after.tax_amount
      ≡ rate_of
          (after.subtotal - after.discount_amount)
          (get_tax_rate earlier.locations before.location_id)
  pub total_is :
      after.total_amount + after.discount_amount
      ≡ after.subtotal + after.tax_amount + before.tip_amount
  pub tip_kept : after.tip_amount ≡ current.tip_amount
  pub status_kept : after.status ≡ current.status
  pub paid_at_kept : after.paid_at ≡ current.paid_at

replace_items-KeepsKeys : (p : OrderPatch) (r : Replacement) → KeepsKeys (replace_items p r)
unfolding replace_items
replace_items-KeepsKeys p r = record { id_kept = λ o. refl; organization_kept = λ o. refl }

-- What was read and computed.
record Prepared (org role id : Text) (patch : OrderPatch) (lines : List LineDto) (shop : Shop)
    (r : Replacement) : Type 0 where
  before : Order
  discount : Option Discount
  was : find_order org id shop.db ≡ some before
  was_open : IsOpen id before shop.db
  priced : price_cart_items shop.menu org lines ≡ ok (r.items, r.subtotal)
  discounted :
      resolve_discount shop.discounts org role patch.discount_id patch.promo_code ≡ ok discount
  is :
      r
      ≡ replacement_of r.items discount r.subtotal
          (get_tax_rate shop.locations before.location_id)
          before.tip_amount

prepare_update-Prepared :
    (org role id : Text) (patch : OrderPatch) (lines : List LineDto) (shop : Shop) (r : Replacement)
    → prepare_update org role id patch lines shop ≡ ok r
    → Prepared org role id patch lines shop r
unfolding prepare_update
prepare_update-Prepared org role id patch [] shop r h = absurd (ground arith)
prepare_update-Prepared org role id patch (line ∷ lines) shop r h =
    elim (Option-cases (find_order org id shop.db)) [
      | inl e ↦ absurd (ground arith)
      | inr (o, e) ↦ elim (Result-cases (check_editable id o shop.db)) [
        | inr (x, f) ↦ absurd (ground arith)
        | inl (tt, f) ↦ elim (Result-cases (require_customer org (given patch.customer_id) shop)) [
          | inr (x, c) ↦ absurd (ground arith)
          | inl (tt, c) ↦ elim (Result-cases (price_cart_items shop.menu org (line ∷ lines))) [
            | inr (x, g) ↦ absurd (ground arith)
            | inl ((items, subtotal), g) ↦
                elim (Result-cases
                  (resolve_discount shop.discounts org role patch.discount_id patch.promo_code)) [
                    | inr (x, k) ↦ absurd (ground arith)
                    | inl (d, k) ↦
                        let rate = get_tax_rate shop.locations o.location_id in
                        let whole : replacement_of items d subtotal rate o.tip_amount ≡ r =
                          ground arith in
                        subst (Prepared org role id patch (line ∷ lines) shop) whole (record {
                          before = o;
                          discount = d;
                          was = e;
                          was_open = editable id o shop.db (cc);
                          priced = unfold replacement_of in g;
                          discounted = k;
                          is = unfold replacement_of in refl;
                        })
                  ]
          ]
        ]
      ]
    ]

written :
    (org role id : Text) (patch : OrderPatch) (lines : List LineDto) (earlier shop shop' : Shop)
    → update_order_items org role id patch lines earlier shop ≡ ok shop'
    → (r : Replacement) × (prepare_update org role id patch lines earlier ≡ ok r)
      × (record shop { db = update_order id (replace_items patch r) shop.db } ≡ shop')
unfolding update_order_items
written org role id patch lines earlier shop shop' h =
    elim (Result-cases (prepare_update org role id patch lines earlier)) [
      | inr (x, e) ↦ absurd (ground arith)
      | inl (r, e) ↦ (r, e, ground arith)
    ]

-- The stock, the payments and the other orders stay.
abbrev pub KeepsRest : Text → Text → Shop → Shop → Type 0
KeepsRest org id shop shop' =
    (shop'.menu ≡ shop.menu)
    × (shop'.db.payments ≡ shop.db.payments)
    × ((j : Text) → j ≢ id → find_order org j shop'.db ≡ find_order org j shop.db)

-- A replacement leaves the rest as it is when it writes.
pub update_order_items-others :
    (org role id : Text) (patch : OrderPatch) (lines : List LineDto) (earlier shop shop' : Shop)
    → update_order_items org role id patch lines earlier shop ≡ ok shop'
    → KeepsRest org id shop shop'
update_order_items-others org role id patch lines earlier shop shop' h =
    let (r, e, same) = written org role id patch lines earlier shop shop' h in
    subst (KeepsRest org id shop) same (
      refl,
      payments-update_order id (replace_items patch r) shop.db,
      λ j ne.
          find_order-update_order_ne id (replace_items patch r) (replace_items-KeepsKeys patch r)
            org j shop.db ne,
    )

replaced :
    (org role id : Text) (patch : OrderPatch) (lines : List LineDto) (earlier shop : Shop)
    (current : Order) (r : Replacement)
    → find_order org id shop.db ≡ some current
    → Prepared org role id patch lines earlier r
    → Replaced org role id patch lines earlier shop
        (record shop { db = update_order id (replace_items patch r) shop.db })
        current
replaced org role id patch lines earlier shop current r found q =
    let sum = (price_cart_items-ArePriced earlier.menu org lines r.items r.subtotal q.priced).1 in
    let made : (r.discount_amount ≡ discount_amount_for q.discount r.subtotal)
        × (r.tax_amount
            ≡ rate_of (r.subtotal - discount_amount_for q.discount r.subtotal)
                (get_tax_rate earlier.locations q.before.location_id))
        × (r.total_amount
            ≡ r.subtotal
              - discount_amount_for q.discount r.subtotal
              + rate_of (r.subtotal - discount_amount_for q.discount r.subtotal)
                  (get_tax_rate earlier.locations q.before.location_id)
              + q.before.tip_amount) =
      unfold replacement_of in
      (
        ap (λ (x : Replacement). x.discount_amount) q.is,
        ap (λ (x : Replacement). x.tax_amount) q.is,
        ap (λ (x : Replacement). x.total_amount) q.is,
      ) in
    unfold replace_items in
    record {
      before = q.before;
      after = replace_items patch r current;
      items = r.items;
      discount = q.discount;
      was = q.was;
      is =
          find_order-update_order id (replace_items patch r) (replace_items-KeepsKeys patch r) org
            shop.db found;
      was_open = q.was_open;
      priced = q.priced;
      discounted = q.discounted;
      items_replaced = refl;
      subtotal_is = omega (arith, rows-subtotal r.items, sum);
      discount_is = made.0;
      tax_is = rw made.0 made.1;
      total_is = omega (arith, made.0, made.1, made.2, discount-le q.discount r.subtotal);
      tip_kept = refl;
      status_kept = refl;
      paid_at_kept = refl;
    }

-- When the items of an order are replaced, the order was unpaid, pending or confirmed, and had no payments
-- when it was read; the new items are priced from the menu as read then; subtotal, discount and tax agree
-- with them, and the total is theirs with the tip as read then. Tip, status and payment stamp are as they
-- are when the replacement is written, and so are the stock, the payments and the other orders.
pub update_order_items-Replaced :
    (org role id : Text) (patch : OrderPatch) (lines : List LineDto) (earlier shop shop' : Shop)
    (current : Order)
    → find_order org id shop.db ≡ some current
    → update_order_items org role id patch lines earlier shop ≡ ok shop'
    → Replaced org role id patch lines earlier shop shop' current × KeepsRest org id shop shop'
update_order_items-Replaced org role id patch lines earlier shop shop' current found h =
    let (r, e, same) = written org role id patch lines earlier shop shop' h in
    (
      subst (λ s. Replaced org role id patch lines earlier shop s current) same
          (replaced org role id patch lines earlier shop current r found
            (prepare_update-Prepared org role id patch lines earlier r e)),
      update_order_items-others org role id patch lines earlier shop shop' h,
    )
