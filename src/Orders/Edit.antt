-- ===== src/Orders/Edit.antt =====
-- orders.service.ts, `appendOrderItems` and `updateOrderItems`: the items of an unpaid order change.
-- `org` and `role` are the caller's. An append holds the order's advisory lock from its checks to its
-- writes and is one step. `updateOrderItems` takes no lock: it reads and prices at one moment and writes
-- at a later one, and the two states are two arguments. Printing, audit entries and realtime events are
-- left out.
pub mod Laws
pub mod Replace
use antd_platform.Prelude.{
  ℕ, ◌+◌, ◌-◌, Bool, true, false, ◌&&◌, ◌||◌, not, Option, none, some, List, [], ◌∷◌, ◌++◌, map,
  Text, text_eq, codes, Result, ok, err, ◌>>=◌, ◌>>◌, refuse, require, need, if◌then◌else◌, is_some,
  any, get_or,
}
use antd_platform.Prelude.Int.{pos, leb_ℤ}
use antd_platform.Strings.{trim}
use antd_platform.Status.{OrderStatus, pending, confirmed, same_status}
use antd_platform.Database.{Order, OrderItem, Db, Claim, find_order, update_order, items_subtotal}
use antd_platform.Money.{Discount, discount_amount_for, rate_of}
use antd_platform.Pricing.Cart.{LineDto, ResolvedCartItem, price_cart_items, order_item}
use antd_platform.Pricing.Discounts.{given, resolve_discount}
use antd_platform.Pricing.Locations.{get_tax_rate}
use antd_platform.Pricing.Stock.{decrement_stock}
use antd_platform.Shop.{
  Shop, Customer, OrderError, no_items, order_not_found, already_paid, not_editable, has_payments,
  customer_not_found, pricing, discounting,
}
use antd_platform.Orders.Payment.{paid_sum_for}
use antd_platform.Orders.Payment.Adjust.{with_error}

-- What every edit demands of the order.
unfoldable pub check_editable : Text → Order → Db → Result OrderError (Unit {0})
check_editable id order db = do
  refuse (is_some order.paid_at) already_paid
  require (same_status order.status pending || same_status order.status confirmed) not_editable
  refuse (not (leb_ℤ (paid_sum_for id db) (pos 0))) has_payments

-- The tender math of an edit, with the tip that the order has.
unfoldable pub retotal : Option Discount → ℕ → ℕ → Order → Order
retotal discount subtotal tax_rate_bps o =
    let discount_amount = discount_amount_for discount subtotal in
    let taxable_base = subtotal - discount_amount in
    let tax_amount = rate_of taxable_base tax_rate_bps in
    record o {
      subtotal = subtotal;
      discount_amount = discount_amount;
      tax_amount = tax_amount;
      total_amount = taxable_base + tax_amount + o.tip_amount;
    }

-- `insert … on conflict do nothing`: the claim, unless the organization has it already.
unfoldable pub is_claimed : Text → Text → Db → Bool
is_claimed org id db =
    any (λ c. text_eq c.organization_id org && text_eq c.client_mutation_id id) db.claims

unfoldable pub already_done : Text → Option Text → Db → Bool
already_done org none db = false
already_done org (some id) db = is_claimed org id db

unfoldable pub add_claim : Text → Option Text → Db → Db
add_claim org none db = db
add_claim org (some id) db = record db {
  claims = record { organization_id = org; client_mutation_id = id } ∷ db.claims;
}

-- An order that is not deleted.
unfoldable pub live_order : Text → Text → Db → Result OrderError Order
live_order org id db = do
  order ← need (find_order org id db) order_not_found
  refuse (is_some order.deleted_at) order_not_found
  ok order

unfoldable pub grow : List ResolvedCartItem → Option Discount → ℕ → ℕ → Order → Order
unfolding retotal
grow items discount subtotal tax_rate_bps o = record (retotal discount subtotal tax_rate_bps o) {
  items = o.items ++ map (order_item none) items;
}

unfoldable pub append_items :
    Text → Text → Text → Option Text → List LineDto → Shop → Result OrderError Shop
append_items org role id mutation lines shop = do
  order ← live_order org id shop.db
  check_editable id order shop.db
  priced ← with_error pricing (price_cart_items shop.menu org lines)
  let subtotal = items_subtotal order.items + priced.1
  let rate = get_tax_rate shop.locations order.location_id
  discount ←
      with_error discounting (resolve_discount shop.discounts org role order.discount_id none)
  ok (record shop {
    db = update_order id (grow priced.0 discount subtotal rate) (add_claim org mutation shop.db);
    menu = decrement_stock shop.menu priced.0;
  })

-- The flag says that the request was a replay. A replay answers the order, if it is there.
unfoldable pub append_order_items :
    Text → Text → Text → Option Text → List LineDto → Shop → Result OrderError (Shop × Bool)
append_order_items org role id client_mutation_id [] shop = err no_items
append_order_items org role id client_mutation_id (line ∷ lines) shop =
    let mutation = given client_mutation_id in
    if already_done org mutation shop.db
    then (need (find_order org id shop.db) order_not_found >>= λ order. ok (shop, true))
    else (append_items org role id mutation (line ∷ lines) shop >>= λ s. ok (s, false))

-- The optional columns of an update: each is kept if the request leaves it out.
pub record OrderPatch : Type 0 where
  pub customer_id : Option Text
  pub customer_name : Option Text
  pub customer_phone : Option Text
  pub table_id : Option Text
  pub order_type : Option Text
  pub special_instructions : Option Text
  pub discount_id : Option Text
  pub promo_code : Option Text

abbrev pub patched {ℓ} : {A B : Type ℓ} → Option A → (A → B) → B → B
patched none f old = old
patched (some a) f old = f a

-- `name.trim() || 'Walk-in'`.
unfoldable pub name_or_walk_in : Text → Text
name_or_walk_in t = elim (trim t) [ [] ↦ codes "Walk-in" | c ∷ cs ↦ c ∷ cs ]

-- What an update has computed before its transaction, with the tip that it read.
pub record Replacement : Type 0 where
  pub items : List ResolvedCartItem
  pub discount_id : Option Text
  pub subtotal : ℕ
  pub discount_amount : ℕ
  pub tax_amount : ℕ
  pub total_amount : ℕ

unfoldable pub replacement_of : List ResolvedCartItem → Option Discount → ℕ → ℕ → ℕ → Replacement
replacement_of items discount subtotal tax_rate_bps existing_tip =
    let discount_amount = discount_amount_for discount subtotal in
    let taxable_base = subtotal - discount_amount in
    let tax_amount = rate_of taxable_base tax_rate_bps in
    record {
      items = items;
      discount_id = elim discount [ none ↦ none | some d ↦ some d.id ];
      subtotal = subtotal;
      discount_amount = discount_amount;
      tax_amount = tax_amount;
      total_amount = taxable_base + tax_amount + existing_tip;
    }

unfoldable pub replace_items : OrderPatch → Replacement → Order → Order
replace_items patch r o = record o {
  subtotal = r.subtotal;
  discount_amount = r.discount_amount;
  tax_amount = r.tax_amount;
  total_amount = r.total_amount;
  discount_id = r.discount_id;
  customer_id = patched patch.customer_id (λ t. given (some t)) o.customer_id;
  table_id = patched patch.table_id (λ t. given (some t)) o.table_id;
  customer_name = patched patch.customer_name name_or_walk_in o.customer_name;
  order_type = patched patch.order_type (λ t. t) o.order_type;
  special_instructions =
      patched patch.special_instructions (λ t. given (some t)) o.special_instructions;
  customer_phone = patched patch.customer_phone trim o.customer_phone;
  items = map (order_item none) r.items;
}

-- `requireOrgCustomer`, where a customer is named.
unfoldable pub require_customer : Text → Option Text → Shop → Result OrderError (Unit {0})
require_customer org none shop = ok tt
require_customer org (some id) shop =
    require
      (any (λ (c : Customer). text_eq c.id id && text_eq c.organization_id org) shop.customers)
      customer_not_found

-- The checks and the pricing.
unfoldable pub prepare_update :
    Text → Text → Text → OrderPatch → List LineDto → Shop → Result OrderError Replacement
unfolding replacement_of
prepare_update org role id patch [] shop = err no_items
prepare_update org role id patch (line ∷ lines) shop = do
  order ← need (find_order org id shop.db) order_not_found
  check_editable id order shop.db
  require_customer org (given patch.customer_id) shop
  priced ← with_error pricing (price_cart_items shop.menu org (line ∷ lines))
  let rate = get_tax_rate shop.locations order.location_id
  discount ←
      with_error discounting
        (resolve_discount shop.discounts org role patch.discount_id patch.promo_code)
  ok (replacement_of priced.0 discount priced.1 rate order.tip_amount)

-- The reads are of `earlier`, the writes go to `shop`.
unfoldable pub update_order_items :
    Text → Text → Text → OrderPatch → List LineDto → Shop → Shop → Result OrderError Shop
update_order_items org role id patch lines earlier shop = do
  r ← prepare_update org role id patch lines earlier
  ok (record shop { db = update_order id (replace_items patch r) shop.db })
