-- ===== src/Orders/Create.antt =====
-- orders.service.ts, `createPosOrder`: an order rung up at the register. The new ids and the clock are
-- arguments. Everything runs in one step, so the fallback for a lost race on the unique client id
-- does not arise. Usage, printing, audit entries and realtime events are left out.
pub mod Tender
pub mod Tickets
pub mod Laws
pub mod Requests
use antd_platform.Prelude.{
  ℕ, ◌+◌, ◌-◌, ◌*◌, ◌/◌, Bool, true, false, ◌&&◌, ◌||◌, not, Option, none, some, List, [], ◌∷◌,
  ◌++◌, map, Text, text_eq, codes, Result, ok, err, ◌>>=◌, ◌>>◌, refuse, require, need,
  if◌then◌else◌, is_some, get_or, find, ltb, min, ◌==◌,
}
use antd_platform.Prelude.Int.{ℤ, pos, pos_part}
use antd_platform.Strings.{trim, trimmed, to_lower_case}
use antd_platform.Status.{confirmed}
use antd_platform.Database.{Order, OrderItem, Db}
use antd_platform.Money.{Discount, discount_amount_for, rate_of}
use antd_platform.Pricing.Cart.{
  LineDto, ResolvedCartItem, price_cart_items, order_item, taxable_subtotal,
}
use antd_platform.Pricing.Discounts.{given, resolve_discount}
use antd_platform.Pricing.Locations.{Location, next_ticket_number}
use antd_platform.Pricing.Stock.{decrement_stock}
use antd_platform.Shop.{
  Shop, Customer, OrderError, no_items, location_not_found, customer_required, not_enough_points,
  pricing, discounting,
}
use antd_platform.Orders.Payment.Adjust.{with_error}
use antd_platform.Orders.Edit.{name_or_walk_in, require_customer}

pub record PosOrderDto : Type 0 where
  pub location_id : Text
  pub customer_id : Option Text
  pub customer_name : Option Text
  pub customer_phone : Option Text
  pub table_id : Option Text
  pub order_type : Option Text
  pub special_instructions : Option Text
  pub payment_method : Option Text
  pub tip_amount : Option ℤ
  pub apply_service_charge : Bool
  pub redeem_points : Option ℤ
  pub discount_id : Option Text
  pub promo_code : Option Text
  pub client_order_id : Option Text
  pub by_course : Bool
  pub items : List LineDto

-- `Math.round(n / d)`: the quotient is taken exactly.
unfoldable pub round_ratio : ℕ → ℕ → ℕ
round_ratio n d = (2 * n + d) / (2 * d)

-- The discount falls on the taxable and the exempt part in proportion, and the service charge is taxed.
unfoldable pub tax_on : ℕ → ℕ → ℕ → ℕ → ℕ → ℕ
unfolding round_ratio
tax_on subtotal discount_amount taxable service_charge tax_rate_bps =
    if ltb 0 subtotal
    then round_ratio
        ((taxable * subtotal - discount_amount * taxable + service_charge * subtotal)
          * tax_rate_bps)
        (subtotal * 10000)
    else rate_of service_charge tax_rate_bps

pub record PosTender : Type 0 where
  pub subtotal : ℕ
  pub discount_amount : ℕ
  pub service_charge_amount : ℕ
  pub tax_amount : ℕ
  pub tip_amount : ℕ
  pub redemption_amount : ℕ
  pub total_amount : ℕ

unfoldable pub pos_tender : ℕ → ℕ → Option Discount → Location → Bool → ℕ → ℕ → PosTender
unfolding tax_on
pos_tender subtotal taxable discount location apply_service_charge tip redeem_points =
    let discount_amount = discount_amount_for discount subtotal in
    let taxable_base = subtotal - discount_amount in
    let service_charge_amount =
      if apply_service_charge then rate_of taxable_base location.service_charge_bps else 0 in
    let tax_amount =
      tax_on subtotal discount_amount taxable service_charge_amount location.tax_rate_bps in
    let pre_redemption_total = taxable_base + service_charge_amount + tax_amount + tip in
    let redemption_amount = min redeem_points pre_redemption_total in
    record {
      subtotal = subtotal;
      discount_amount = discount_amount;
      service_charge_amount = service_charge_amount;
      tax_amount = tax_amount;
      tip_amount = tip;
      redemption_amount = redemption_amount;
      total_amount = pre_redemption_total - redemption_amount;
    }

-- `findByClientOrderId`.
unfoldable pub find_by_client_order_id : Text → Text → Db → Option Order
find_by_client_order_id org client_id db =
    find
      (λ o.
        text_eq o.organization_id org
        && (elim o.client_order_id [ none ↦ false | some c ↦ text_eq c client_id ]))
      db.orders

unfoldable pub replay_of : Text → Option Text → Db → Option Order
replay_of org none db = none
replay_of org (some client_id) db = find_by_client_order_id org client_id db

unfoldable pub location_of : Text → Text → List Location → Option Location
location_of org id locations =
    find (λ l. text_eq l.id id && text_eq l.organization_id org && not l.is_deleted) locations

-- The points of the named customer, read by the id alone.
unfoldable pub points_of : Option Text → List Customer → ℕ
points_of none customers = 0
points_of (some id) customers = elim (find (λ (c : Customer). text_eq c.id id) customers) [
  | none ↦ 0
  | some c ↦ c.loyalty_points
]

unfoldable pub check_redemption : Option Text → ℕ → List Customer → Result OrderError (Unit {0})
check_redemption customer redeem_points customers = do
  refuse (ltb 0 redeem_points && not (is_some customer)) customer_required
  refuse (ltb (points_of customer customers) redeem_points) not_enough_points

-- "Walk-in" is not a name.
unfoldable pub real_name : Option Text → Option Text
real_name none = none
real_name (some name) = elim (trim name) [
  | [] ↦ none
  | c ∷ cs ↦ if text_eq (to_lower_case (c ∷ cs)) (codes "walk-in") then none else some (c ∷ cs)
]

unfoldable pub has_phone : Text → Text → Customer → Bool
has_phone org phone c =
    text_eq c.organization_id org && (elim c.phone [ none ↦ false | some p ↦ text_eq p phone ])

-- A customer who is known as a walk-in gets the name.
unfoldable pub name_customer : Text → Option Text → Customer → Customer
name_customer id none c = c
name_customer id (some name) c =
    if text_eq c.id id && text_eq (to_lower_case c.name) (codes "walk-in")
    then record c { name = name }
    else c

-- `resolveCustomerIdByPhone`: the customers afterwards, and the one with the number.
unfoldable pub resolve_customer_id_by_phone :
    Text → Text → Option Text → Option Text → List Customer → List Customer × Option Text
unfolding has_phone name_customer real_name
resolve_customer_id_by_phone new_id org phone name customers = elim (trimmed phone) [
  | none ↦ (customers, none)
  | some number ↦ elim (find (has_phone org number) customers) [
    | some existing ↦ (map (name_customer existing.id (real_name name)) customers, some existing.id)
    | none ↦ (
      customers
          ++ (record {
            id = new_id;
            organization_id = org;
            name = get_or (real_name name) number;
            phone = some number;
            loyalty_points = 0;
          }
              ∷ []),
      some new_id,
    )
  ]
]

-- A chosen customer wins over the number.
unfoldable pub customer_for :
    Text → Text → PosOrderDto → List Customer → List Customer × Option Text
customer_for new_id org dto customers = elim (given dto.customer_id) [
  | some id ↦ (customers, some id)
  | none ↦ resolve_customer_id_by_phone new_id org dto.customer_phone dto.customer_name customers
]

-- Points accrue on orders that are paid at creation.
unfoldable pub points_earned : Option Text → ℕ → ℕ
points_earned none total = 0
points_earned (some method) total = total / 100

-- `GREATEST(points - redeemed + earned, 0)`, where a customer was chosen.
unfoldable pub settle_points : Option Text → ℕ → ℕ → List Customer → List Customer
settle_points none redeemed earned customers = customers
settle_points (some id) redeemed earned customers =
    map
      (λ (c : Customer).
        if text_eq c.id id
        then record c { loyalty_points = c.loyalty_points + earned - redeemed }
        else c)
      customers

-- Course 1 goes to the kitchen at once where the order is fired by course.
unfoldable pub first_course : ℕ → Bool → ResolvedCartItem → OrderItem
first_course now by_course i =
    order_item (if by_course && get_or i.course 0 == 1 then some now else none) i

unfoldable pub pos_order :
    ℕ
    → Text
    → Text
    → PosOrderDto
    → Option Text
    → Option Discount
    → PosTender
    → ℕ
    → List ResolvedCartItem
    → Order
unfolding first_course
pos_order now id org dto customer discount t ticket_number items = record {
  id = id;
  organization_id = org;
  location_id = some dto.location_id;
  status = confirmed;
  customer_id = customer;
  customer_name = name_or_walk_in (get_or dto.customer_name []);
  customer_phone = trim (get_or dto.customer_phone []);
  table_id = given dto.table_id;
  order_type = get_or dto.order_type (codes "dine_in");
  special_instructions = dto.special_instructions;
  ticket_number = ticket_number;
  client_order_id = dto.client_order_id;
  by_course = dto.by_course;
  items = map (first_course now dto.by_course) items;
  subtotal = t.subtotal;
  discount_amount = t.discount_amount;
  discount_id = elim discount [ none ↦ none | some d ↦ some d.id ];
  service_charge_amount = t.service_charge_amount;
  tax_amount = t.tax_amount;
  tip_amount = t.tip_amount;
  loyalty_points_earned = points_earned (given dto.payment_method) t.total_amount;
  loyalty_points_redeemed = t.redemption_amount;
  total_amount = t.total_amount;
  payment_method = dto.payment_method;
  paid_at = if is_some (given dto.payment_method) then some now else none;
  deleted_at = none;
}

-- What the creation writes.
unfoldable pub write_pos_order :
    ℕ
    → Text
    → Text
    → Text
    → PosOrderDto
    → Option Discount
    → PosTender
    → List ResolvedCartItem
    → Shop
    → Shop
unfolding pos_order customer_for settle_points
write_pos_order now id new_customer org dto discount t items shop =
    let named = customer_for new_customer org dto shop.customers in
    let order =
      pos_order now id org dto named.1 discount t
        (next_ticket_number shop.db.orders dto.location_id) items in
    record shop {
      db = record shop.db { orders = shop.db.orders ++ (order ∷ []) };
      menu = decrement_stock shop.menu items;
      customers =
          settle_points (given dto.customer_id) t.redemption_amount order.loyalty_points_earned
            named.0;
    }

unfoldable pub create_new :
    ℕ → Text → Text → Text → Text → PosOrderDto → Shop → Result OrderError Shop
create_new now id new_customer org role dto shop = do
  location ← need (location_of org dto.location_id shop.locations) location_not_found
  require_customer org (given dto.customer_id) shop
  let redeem_points = pos_part (get_or dto.redeem_points (pos 0))
  check_redemption (given dto.customer_id) redeem_points shop.customers
  priced ← with_error pricing (price_cart_items shop.menu org dto.items)
  discount ←
      with_error discounting
        (resolve_discount shop.discounts org role dto.discount_id dto.promo_code)
  let tip = pos_part (get_or dto.tip_amount (pos 0))
  let t =
      pos_tender priced.1 (taxable_subtotal priced.0) discount location dto.apply_service_charge tip
        redeem_points
  ok (write_pos_order now id new_customer org dto discount t priced.0 shop)

-- The tables afterwards, and the id of the order that is answered.
unfoldable pub create_pos_order :
    ℕ → Text → Text → Text → Text → PosOrderDto → Shop → Result OrderError (Shop × Text)
create_pos_order now id new_customer org role dto shop = do
  refuse (elim dto.items [ [] ↦ true | line ∷ lines ↦ false ]) no_items
  (elim (replay_of org (given dto.client_order_id) shop.db) [
    | some order ↦ ok (shop, order.id)
    | none ↦ create_new now id new_customer org role dto shop >>= λ s. ok (s, id)
  ])
