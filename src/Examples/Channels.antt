-- ===== src/Examples/Channels.antt =====
-- An order taken by telephone, and one that a marketplace delivers twice.
use antd_platform.Strings.{to_lower_case, trimmed}
use antd_platform.Money.{rate_of}
use antd_platform.Pricing.Locations.{next_ticket_number, get_tax_rate, resolve_order_location}
use antd_platform.Pricing.Cart.{menu_item_of}
use antd_platform.Prelude.{text_eq, ◌++◌, ◌⊎◌, ◌≡◌, refl, none, some, ok, [], ◌∷◌, codes, false}
use antd_platform.Status.{pending}
use antd_platform.Database.{Order}
use antd_platform.Shop.{Shop}
use antd_platform.Orders.StatusWrites.{find_by_id}
use antd_platform.Orders.Create.{resolve_customer_id_by_phone, replay_of, find_by_client_order_id}
use antd_platform.Orders.Channels.{
  item_locations, SpokenOrder, create_order_for_org, MarketplaceOrder, create_marketplace_order,
}
use antd_platform.Orders.Channels.Laws.{
  SpokenAnswered, create_order_for_org-Answered, create_marketplace_order-redelivered,
}
use antd_platform.Examples.Fixtures.{acme, main_street, shop, open_order, burger_item}

-- One burger, for which the caller has a request.
abbrev call : SpokenOrder
call = record {
  customer_name = codes "Ann";
  customer_phone = codes "5550100";
  items =
      record { menu_item_id = codes "burger"; quantity = 1; modifiers = codes "no onions" ∷ [] }
      ∷ [];
  location_id = none;
  order_type = some (codes "pickup");
  special_instructions = none;
  client_order_id = some (codes "c9");
}

abbrev called_order : Order
called_order = record {
  id = codes "o2";
  organization_id = acme;
  location_id = some main_street;
  status = pending;
  customer_id = none;
  customer_name = codes "Ann";
  customer_phone = codes "5550100";
  table_id = none;
  order_type = codes "pickup";
  special_instructions = none;
  ticket_number = 8;
  client_order_id = some (codes "c9");
  by_course = false;
  items =
      record {
        menu_item_id = codes "burger";
        quantity = 1;
        price = 1200;
        modifiers =
            record {
              option_id = [];
              modifier = codes "Request";
              option = codes "no onions";
              price_adjustment = 0;
            }
            ∷ [];
        notes = none;
        course = none;
        fired_at = none;
      }
      ∷ [];
  subtotal = 1200;
  discount_amount = 0;
  discount_id = none;
  service_charge_amount = 0;
  tax_amount = 120;
  tip_amount = 0;
  loyalty_points_earned = 0;
  loyalty_points_redeemed = 0;
  total_amount = 1320;
  payment_method = none;
  paid_at = none;
  deleted_at = none;
}

abbrev called_shop : Shop
called_shop = record shop { db = record shop.db { orders = open_order ∷ called_order ∷ [] } }

called : create_order_for_org (codes "o2") acme call shop ≡ ok (called_shop, codes "o2")
unfolding create_order_for_org replay_of find_by_client_order_id text_eq menu_item_of
    resolve_order_location rate_of item_locations get_tax_rate next_ticket_number
called = refl

id_is_free : find_by_id (codes "o2") shop.db ≡ none
unfolding find_by_id text_eq
id_is_free = refl

create_order_for_org-Answered_example :
    SpokenAnswered (codes "o2") acme call shop called_shop (codes "o2")
create_order_for_org-Answered_example =
    create_order_for_org-Answered (codes "o2") acme call shop called_shop (codes "o2") id_is_free
      called

-- Two burgers at the marketplace's price.
abbrev delivery : MarketplaceOrder
delivery = record {
  location_id = some main_street;
  client_order_id = codes "eats:77";
  customer_name = codes "Ann";
  customer_phone = codes "5550100";
  order_type = some (codes "delivery");
  special_instructions = none;
  subtotal = some 2600;
  tax_amount = none;
  tip_amount = none;
  total_amount = 2600;
  items = record burger_item { price = 1300 } ∷ [];
}

abbrev delivered_order : Order
delivered_order = record {
  id = codes "o3";
  organization_id = acme;
  location_id = some main_street;
  status = pending;
  customer_id = some (codes "k1");
  customer_name = codes "Ann";
  customer_phone = codes "5550100";
  table_id = none;
  order_type = codes "delivery";
  special_instructions = none;
  ticket_number = 8;
  client_order_id = some (codes "eats:77");
  by_course = false;
  items =
      record {
        menu_item_id = codes "burger";
        quantity = 2;
        price = 1300;
        modifiers = [];
        notes = none;
        course = none;
        fired_at = none;
      }
      ∷ [];
  subtotal = 2600;
  discount_amount = 0;
  discount_id = none;
  service_charge_amount = 0;
  tax_amount = 0;
  tip_amount = 0;
  loyalty_points_earned = 0;
  loyalty_points_redeemed = 0;
  total_amount = 2600;
  payment_method = none;
  paid_at = none;
  deleted_at = none;
}

abbrev delivered_shop : Shop
delivered_shop = record shop {
  db = record shop.db { orders = open_order ∷ delivered_order ∷ [] };
  customers =
      record {
        id = codes "k1";
        organization_id = acme;
        name = codes "Ann";
        phone = some (codes "5550100");
        loyalty_points = 0;
      }
      ∷ [];
}

delivered :
    create_marketplace_order (codes "o3") (codes "k1") acme delivery shop
    ≡ ok (delivered_shop, codes "o3")
unfolding create_marketplace_order find_by_client_order_id text_eq resolve_customer_id_by_phone
    next_ticket_number trimmed to_lower_case
delivered = refl

create_marketplace_order-redelivered_example :
    (create_marketplace_order (codes "o4") (codes "k2") acme delivery delivered_shop
      ≡ ok (delivered_shop, codes "o3"))
    × ((delivered_shop ≡ shop)
        ⊎ ((o : Order) × (delivered_shop.db.orders ≡ shop.db.orders ++ o ∷ [])
            × (o.total_amount ≡ 2600)
            × (o.status ≡ pending)))
create_marketplace_order-redelivered_example =
    create_marketplace_order-redelivered (codes "o3") (codes "o4") (codes "k1") (codes "k2") acme
      delivery delivery (record burger_item { price = 1300 }) [] shop delivered_shop (codes "o3")
      refl refl delivered
