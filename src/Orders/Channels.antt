-- ===== src/Orders/Channels.antt =====
-- orders.service.ts, `createOrderForOrg` (orders taken by telephone) and `createMarketplaceOrder`. New ids
-- are arguments. Everything runs in one step, so the fallback for a lost race on the unique client id does
-- not arise. Printing, audit entries, usage and realtime events are left out. An order with no location has
-- ticket number 0, for null; tickets of a location start at 1. Absent amounts are 0, for null.
pub mod Laws
pub mod Tickets
use antd_platform.Prelude.{
  ℕ, ◌+◌, ◌*◌, Bool, true, false, ◌&&◌, not, Option, none, some, List, [], ◌∷◌, ◌++◌, map, Text,
  text_eq, codes, Result, ok, err, ◌>>=◌, ◌>>◌, refuse, need, get_or, filter, any,
}
use antd_platform.Status.{pending}
use antd_platform.Database.{Order, OrderItem, Snapshot, Db}
use antd_platform.Money.{rate_of}
use antd_platform.Pricing.Cart.{Menu, MenuItem, item_not_found, menu_item_of}
use antd_platform.Pricing.Discounts.{given}
use antd_platform.Pricing.Locations.{
  Location, get_tax_rate, next_ticket_number, resolve_order_location,
}
use antd_platform.Shop.{Shop, OrderError, no_items, pricing}
use antd_platform.Orders.Create.{replay_of, find_by_client_order_id, resolve_customer_id_by_phone}

-- A line as the telephone agent heard it, with free-text requests.
pub record SpokenItem : Type 0 where
  pub menu_item_id : Text
  pub quantity : ℕ
  pub modifiers : List Text

pub record SpokenOrder : Type 0 where
  pub customer_name : Text
  pub customer_phone : Text
  pub items : List SpokenItem
  pub location_id : Option Text
  pub order_type : Option Text
  pub special_instructions : Option Text
  pub client_order_id : Option Text

-- A request has no price.
abbrev pub request_snapshot : Text → Snapshot
request_snapshot name = record {
  option_id = [];
  modifier = codes "Request";
  option = name;
  price_adjustment = 0;
}

abbrev pub spoken_row : SpokenItem → ℕ → OrderItem
spoken_row i price = record {
  menu_item_id = i.menu_item_id;
  quantity = i.quantity;
  price = price;
  modifiers = map request_snapshot i.modifiers;
  notes = none;
  course = none;
  fired_at = none;
}

-- The rows at the menu's prices, and what they cost.
unfoldable pub price_spoken : Menu → Text → List SpokenItem → Result OrderError (List OrderItem × ℕ)
price_spoken menu org [] = ok ([], 0)
price_spoken menu org (i ∷ items) = do
  m ← need (menu_item_of menu org i.menu_item_id) (pricing item_not_found)
  rest ← price_spoken menu org items
  ok (spoken_row i m.price ∷ rest.0, m.price * i.quantity + rest.1)

-- The locations of the menu rows that the order names.
unfoldable pub item_locations : Menu → Text → List SpokenItem → List (Option Text)
item_locations menu org items =
    map (λ (m : MenuItem). m.location_id)
      (filter
        (λ (m : MenuItem).
          any (λ (i : SpokenItem). text_eq i.menu_item_id m.id) items
          && text_eq m.organization_id org
          && not m.is_deleted
          && m.is_available)
        menu.items)

unfoldable pub ticket_at : List Order → Option Text → ℕ
ticket_at orders none = 0
ticket_at orders (some location) = next_ticket_number orders location

unfoldable pub spoken_order :
    Text → Text → SpokenOrder → Option Text → ℕ → List OrderItem → ℕ → ℕ → Order
spoken_order id org dto location ticket items subtotal tax_amount = record {
  id = id;
  organization_id = org;
  location_id = location;
  status = pending;
  customer_id = none;
  customer_name = dto.customer_name;
  customer_phone = dto.customer_phone;
  table_id = none;
  order_type = get_or dto.order_type [];
  special_instructions = dto.special_instructions;
  ticket_number = ticket;
  client_order_id = dto.client_order_id;
  by_course = false;
  items = items;
  subtotal = subtotal;
  discount_amount = 0;
  discount_id = none;
  service_charge_amount = 0;
  tax_amount = tax_amount;
  tip_amount = 0;
  loyalty_points_earned = 0;
  loyalty_points_redeemed = 0;
  total_amount = subtotal + tax_amount;
  payment_method = none;
  paid_at = none;
  deleted_at = none;
}

abbrev pub add_order : Order → Shop → Shop
add_order o shop = record shop { db = record shop.db { orders = shop.db.orders ++ o ∷ [] } }

-- The location that the order is for.
abbrev pub spoken_location : Text → SpokenOrder → Shop → Option Text
spoken_location org dto shop = given (
    resolve_order_location shop.locations org dto.location_id
      (item_locations shop.menu org dto.items))

unfoldable pub create_spoken : Text → Text → SpokenOrder → Shop → Result OrderError Shop
unfolding spoken_order price_spoken ticket_at
create_spoken id org dto shop = do
  priced ← price_spoken shop.menu org dto.items
  let location = spoken_location org dto shop
  let tax_amount = rate_of priced.1 (get_tax_rate shop.locations location)
  let ticket = ticket_at shop.db.orders location
  ok (add_order (spoken_order id org dto location ticket priced.0 priced.1 tax_amount) shop)

-- The tables afterwards, and the id of the order that is answered.
unfoldable pub create_order_for_org :
    Text → Text → SpokenOrder → Shop → Result OrderError (Shop × Text)
unfolding create_spoken
create_order_for_org id org dto shop = do
  refuse (elim dto.items [ [] ↦ true | item ∷ items ↦ false ]) no_items
  (elim (replay_of org (given dto.client_order_id) shop.db) [
    | some order ↦ ok (shop, order.id)
    | none ↦ create_spoken id org dto shop >>= λ s. ok (s, id)
  ])

-- A marketplace's order, with its own prices and amounts.
pub record MarketplaceOrder : Type 0 where
  pub location_id : Option Text
  pub client_order_id : Text
  pub customer_name : Text
  pub customer_phone : Text
  pub order_type : Option Text
  pub special_instructions : Option Text
  pub subtotal : Option ℕ
  pub tax_amount : Option ℕ
  pub tip_amount : Option ℕ
  pub total_amount : ℕ
  pub items : List OrderItem

-- A row as it is stored: with no course and not fired.
abbrev pub marketplace_row : OrderItem → OrderItem
marketplace_row i = record i { course = none; fired_at = none }

unfoldable pub marketplace_order : Text → Text → MarketplaceOrder → Option Text → ℕ → Order
marketplace_order id org dto customer ticket = record {
  id = id;
  organization_id = org;
  location_id = dto.location_id;
  status = pending;
  customer_id = customer;
  customer_name = dto.customer_name;
  customer_phone = dto.customer_phone;
  table_id = none;
  order_type = get_or dto.order_type [];
  special_instructions = dto.special_instructions;
  ticket_number = ticket;
  client_order_id = some dto.client_order_id;
  by_course = false;
  items = map marketplace_row dto.items;
  subtotal = get_or dto.subtotal 0;
  discount_amount = 0;
  discount_id = none;
  service_charge_amount = 0;
  tax_amount = get_or dto.tax_amount 0;
  tip_amount = get_or dto.tip_amount 0;
  loyalty_points_earned = 0;
  loyalty_points_redeemed = 0;
  total_amount = dto.total_amount;
  payment_method = none;
  paid_at = none;
  deleted_at = none;
}

-- The customer behind the number is found or added before the order is written.
unfoldable pub create_delivered : Text → Text → Text → MarketplaceOrder → Shop → Shop
unfolding marketplace_order ticket_at
create_delivered id new_customer org dto shop =
    let named =
      resolve_customer_id_by_phone new_customer org (some dto.customer_phone)
        (some dto.customer_name) shop.customers in
    let ticket = ticket_at shop.db.orders (given dto.location_id) in
    record (add_order (marketplace_order id org dto named.1 ticket) shop) { customers = named.0 }

unfoldable pub create_marketplace_order :
    Text → Text → Text → MarketplaceOrder → Shop → Result OrderError (Shop × Text)
unfolding create_delivered
create_marketplace_order id new_customer org dto shop = do
  refuse (elim dto.items [ [] ↦ true | item ∷ items ↦ false ]) no_items
  (elim (find_by_client_order_id org dto.client_order_id shop.db) [
    | some order ↦ ok (shop, order.id)
    | none ↦ ok (create_delivered id new_customer org dto shop, id)
  ])
