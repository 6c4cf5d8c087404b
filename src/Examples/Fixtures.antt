-- ===== src/Examples/Fixtures.antt =====
-- One restaurant at one moment: its menu, an open order of two burgers, and what it becomes.
use antd_platform.Prelude.{true, false, none, some, [], ◌∷◌, Text, codes}
use antd_platform.Prelude.Int.{pos, negsuc}
use antd_platform.Status.{pending, confirmed, cancelled}
use antd_platform.Database.{Order, OrderItem, Payment, Db}
use antd_platform.Money.{Discount, percent}
use antd_platform.Pricing.Cart.{MenuItem, Menu, LineDto, ResolvedCartItem}
use antd_platform.Pricing.Discounts.{DiscountRow}
use antd_platform.Pricing.Locations.{Location}
use antd_platform.Shop.{Shop}
use antd_platform.Orders.Payment.{PaymentDto, Receipt}

abbrev pub acme : Text
acme = codes "acme"

abbrev pub main_street : Text
main_street = codes "main"

abbrev pub tab : Text
tab = codes "o1"

abbrev pub ann : Text
ann = codes "ann"

abbrev pub burger_item : OrderItem
burger_item = record {
  menu_item_id = codes "burger";
  quantity = 2;
  price = 1200;
  modifiers = [];
  notes = none;
  course = some 1;
  fired_at = none;
}

abbrev pub open_order : Order
open_order = record {
  id = tab;
  organization_id = acme;
  location_id = some main_street;
  status = pending;
  customer_id = none;
  customer_name = codes "Walk-in";
  customer_phone = [];
  table_id = none;
  order_type = codes "dine_in";
  special_instructions = none;
  ticket_number = 7;
  client_order_id = none;
  by_course = true;
  items = burger_item ∷ [];
  subtotal = 2400;
  discount_amount = 0;
  discount_id = none;
  service_charge_amount = 0;
  tax_amount = 240;
  tip_amount = 0;
  loyalty_points_earned = 0;
  loyalty_points_redeemed = 0;
  total_amount = 2640;
  payment_method = none;
  paid_at = none;
  deleted_at = none;
}

abbrev pub open_db : Db
open_db = record { orders = open_order ∷ []; payments = []; claims = [] }

-- Cash for the whole bill, from a fifty.
abbrev pub cash_payment : Payment
cash_payment = record {
  order_id = tab;
  method = codes "cash";
  amount = pos 2640;
  tip_amount = pos 0;
  cash_received = some (pos 5000);
  change_given = some (pos 2360);
  created_by = ann;
}

abbrev pub cash_dto : PaymentDto
cash_dto = record {
  method = codes "cash";
  amount = none;
  cash_received = some (pos 5000);
  tip_amount = none;
}

abbrev pub paid_order : Order
paid_order = record open_order {
  payment_method = some (codes "cash");
  paid_at = some 9;
  status = confirmed;
}

abbrev pub paid_db : Db
paid_db = record { orders = paid_order ∷ []; payments = cash_payment ∷ []; claims = [] }

abbrev pub cash_receipt : Receipt
cash_receipt = record {
  applied = pos 2640;
  change_given = some (pos 2360);
  remaining = pos 0;
  paid = true;
}

-- The payment taken back by the manager bob.
abbrev pub refund : Payment
refund = record {
  order_id = tab;
  method = codes "cash";
  amount = negsuc 2639;
  tip_amount = pos 0;
  cash_received = some (negsuc 4999);
  change_given = some (negsuc 2359);
  created_by = codes "bob";
}

abbrev pub refunded_db : Db
refunded_db = record {
  orders = record paid_order { status = cancelled } ∷ [];
  payments = cash_payment ∷ refund ∷ [];
  claims = [];
}

-- Five dollars taken back.
abbrev pub part : Payment
part = record {
  order_id = tab;
  method = codes "cash";
  amount = negsuc 499;
  tip_amount = pos 0;
  cash_received = none;
  change_given = none;
  created_by = codes "bob";
}

abbrev pub partly_refunded_db : Db
partly_refunded_db = record paid_db { payments = cash_payment ∷ part ∷ [] }

abbrev pub burger : MenuItem
burger = record {
  id = codes "burger";
  organization_id = acme;
  location_id = some main_street;
  price = 1200;
  tax_exempt = false;
  is_deleted = false;
  is_available = true;
  stock_quantity = some 5;
}

abbrev pub menu : Menu
menu = record { items = burger ∷ []; options = []; attachments = [] }

abbrev pub one_burger : LineDto
one_burger = record {
  menu_item_id = codes "burger";
  quantity = 1;
  option_ids = [];
  notes = none;
  course = some 1;
  price_override = none;
  price_override_reason = none;
}

abbrev pub priced_burger : ResolvedCartItem
priced_burger = record {
  menu_item_id = codes "burger";
  quantity = 1;
  price = 1200;
  modifiers = [];
  notes = none;
  course = some 1;
  tax_exempt = false;
  price_overridden = false;
  price_override_reason = none;
}

abbrev pub ten_percent : Discount
ten_percent = record { id = codes "d1"; type = percent; value = pos 10; requires_manager = false }

abbrev pub lunch : DiscountRow
lunch = record {
  organization_id = acme;
  code = some (codes "LUNCH10");
  active = true;
  is_deleted = false;
  discount = ten_percent;
}

abbrev pub ten_percent_tax : Location
ten_percent_tax = record {
  id = main_street;
  organization_id = acme;
  tax_rate_bps = 1000;
  service_charge_bps = 0;
  is_deleted = false;
}

abbrev pub shop : Shop
shop = record {
  db = open_db;
  menu = menu;
  discounts = lunch ∷ [];
  locations = ten_percent_tax ∷ [];
  customers = [];
}

abbrev pub mutation : Text
mutation = codes "m1"

abbrev pub grown_order : Order
grown_order = record open_order {
  items =
      burger_item
      ∷ record {
        menu_item_id = codes "burger";
        quantity = 1;
        price = 1200;
        modifiers = [];
        notes = none;
        course = some 1;
        fired_at = none;
      }
      ∷ [];
  subtotal = 3600;
  tax_amount = 360;
  total_amount = 3960;
}

abbrev pub grown_shop : Shop
grown_shop = record shop {
  db = record {
    orders = grown_order ∷ [];
    payments = [];
    claims = record { organization_id = acme; client_mutation_id = mutation } ∷ [];
  };
  menu = record menu { items = record burger { stock_quantity = some 4 } ∷ [] };
}

abbrev pub fired_db : Db
fired_db = record open_db {
  orders = record open_order { items = record burger_item { fired_at = some 9 } ∷ [] } ∷ [];
}

-- The paid order with one burger only, and what was overpaid given back.
abbrev pub adjusted_db : Db
adjusted_db = record {
  orders =
      record paid_order {
        items =
            record {
              menu_item_id = codes "burger";
              quantity = 1;
              price = 1200;
              modifiers = [];
              notes = none;
              course = none;
              fired_at = none;
            }
            ∷ [];
        subtotal = 1200;
        tax_amount = 120;
        total_amount = 1320;
      }
      ∷ [];
  payments = cash_payment ∷ record part { amount = negsuc 1319 } ∷ [];
  claims = [];
}
